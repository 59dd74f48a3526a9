-- ===== src/Xdebug/Branch/Find/Found.antt =====
-- What the search of the paths may find.
use saphire.Prelude.{
  ℕ, ◌<◌, ◌≤◌, ◌≡◌, Bool, true, false, some, List, [], ◌∷◌, ◌++◌, ◌==◌, get_elem?, length,
}
use saphire.Clib.{Run, ok}
use saphire.Xdebug.Branch.{XdebugPath, PathInfo}
use saphire.Xdebug.Branch.Arrays.{Contains}
use saphire.Xdebug.Branch.Info.{XdebugBranch, jmp_exit}
use saphire.Xdebug.Branch.Find.Trails.{edges_from, Trail}

-- The branches' outs are in their arrays, and go to branches but for 0 and XDEBUG_JMP_EXIT.
pub record Closed (branches : List XdebugBranch) : Type 0 where
  pub counts :
      (a : ℕ) (b : XdebugBranch) → get_elem? branches a ≡ some b → b.outs_count ≤ length b.outs
  pub targets :
      (a i c : ℕ) (b : XdebugBranch)
      → get_elem? branches a ≡ some b
      → get_elem? b.outs i ≡ some c
      → (c == 0) ≡ false
      → (c == jmp_exit) ≡ false
      → c < length branches

-- A path of the array holds a trail from the entry point.
abbrev pub IsFound : ℕ → List XdebugBranch → XdebugPath → Type 0
IsFound entry branches p = (es : List ℕ) × Contains p es × Trail entry (edges_from 0 branches) es

abbrev pub AllFound : ℕ → List XdebugBranch → List XdebugPath → Type 0
AllFound entry branches [] = Unit
AllFound entry branches (p ∷ ps) = IsFound entry branches p × AllFound entry branches ps

pub AllFound-append :
    (entry : ℕ) (branches : List XdebugBranch) (ps qs : List XdebugPath)
    → AllFound entry branches ps
    → AllFound entry branches qs
    → AllFound entry branches (ps ++ qs)
AllFound-append entry branches [] qs h k = k
AllFound-append entry branches (p ∷ ps) qs h k = (h.0, AllFound-append entry branches ps qs h.1 k)

-- The run ends, with trails added to the paths: never more than 4096 paths in all, and at least one more
-- where there were fewer.
pub record Adds (entry : ℕ) (branches : List XdebugBranch) (ps : List XdebugPath) (r : Run PathInfo)
    : Type 0 where
  pub info : PathInfo
  pub run : r ≡ ok info
  pub more : List XdebugPath
  pub paths : Contains info (ps ++ more)
  pub trails : AllFound entry branches more
  pub at_most : length ps ≤ 4096 → length (ps ++ more) ≤ 4096
  pub at_least : length ps < 4096 → 0 < length more

-- The same for a loop, which tells whether a path was visited.
pub record LoopAdds (entry : ℕ) (branches : List XdebugBranch) (ps : List XdebugPath) (found : Bool)
    (info : PathInfo) (r : Run (Bool × PathInfo)) : Type 0 where
  pub found' : Bool
  pub info' : PathInfo
  pub run : r ≡ ok (found', info')
  pub more : List XdebugPath
  pub paths : Contains info' (ps ++ more)
  pub trails : AllFound entry branches more
  pub at_most : length ps ≤ 4096 → length (ps ++ more) ≤ 4096
  pub kept : found ≡ true → found' ≡ true
  pub unchanged : found' ≡ false → more ≡ []
  pub at_least : found ≡ false → found' ≡ true → length ps < 4096 → 0 < length more
