-- ===== src/Tests/Branch.antt =====
-- xdebug_branch_info.c on the path of the branches 3, 5 and 3.
use saphire.Prelude.{
  true, ltb, ◌&&◌, ◌<◌, ℕ, zero, suc, subst, false, ◌≤◌, ◌+◌, ◌≡◌, refl, sym, inl, none, some, List,
  [], ◌∷◌, ◌++◌, arith, length, get_elem?, replicate, ◌==◌, if◌then◌else◌,
}
use saphire.Clib.{ok}
use saphire.Xdebug.Str.{XdebugStr}
use saphire.Xdebug.Str.Append.{IsStr}
use saphire.Xdebug.Branch.{
  XdebugPath, PathInfo, no_elements, add_element, path_new, path_add, find_last_element,
  path_exists, create_key_for_path,
}
use saphire.Xdebug.Branch.Arrays.{Contains, no_elements-Contains, add_element-Contains}
use saphire.Xdebug.Branch.Paths.{adjacent, path_new-Contains, path_exists-adjacent}
use saphire.Xdebug.Bitset.{XdebugSet}
use saphire.Xdebug.Bitset.Laws as Laws
use saphire.Xdebug.Bitset.Laws.{Writes}
use saphire.Xdebug.Branch.Info.{
  XdebugBranch, BranchInfo, jmp_exit, max_outs, branch_info_create, branch_info_update,
}
use saphire.Xdebug.Branch.Info.Updates.{
  IsValid, branch_info_create-IsValid, branch_info_update-Writes,
}
use saphire.Xdebug.Branch.Find.{find_path, find_entries}
use saphire.Xdebug.Branch.Find.Trails.{edges_from}
use saphire.Xdebug.Branch.Find.Entries.{FromEntries, find_entries-finds}
use saphire.Xdebug.Branch.Find.Found.{AllFound}
use saphire.Xdebug.Branch.Find.Search.{find_path-finds}
use saphire.Xdebug.Branch.Keys.{key, create_key_for_path-injective}

abbrev steps : List ℕ
steps = 3 ∷ 5 ∷ 3 ∷ []

abbrev walk : XdebugPath
walk = record {
  count = 3;
  size = 32;
  elements = some (some 3 ∷ some 5 ∷ some 3 ∷ replicate 29 none);
}

walk-Contains : Contains walk steps
walk-Contains = record {
  rest = replicate 29 none;
  memory = inl refl;
  count = refl;
  size = omega arith;
}

abbrev new_str : XdebugStr
new_str = record { l = 0; a = 0; d = none }

add_element-Contains_example :
    (p' : XdebugPath) × (add_element walk 7 ≡ ok p')
    × Contains p' (steps ++ 7 ∷ [])
    × (p'.size ≡ (if length steps == walk.size then walk.size + 32 else walk.size))
add_element-Contains_example = add_element-Contains walk steps 7 walk-Contains

path_new-Contains_example :
    (path path' empty single : XdebugPath) × (path_new (some walk) ≡ ok path)
    × Contains path steps
    × (path_add (some path) 7 ≡ ok (some path'))
    × Contains path' (steps ++ 7 ∷ [])
    × (find_last_element path' ≡ ok 7)
    × (path_new none ≡ ok empty)
    × Contains empty []
    × (path_add (some empty) 7 ≡ ok (some single))
    × Contains single (7 ∷ [])
path_new-Contains_example = path_new-Contains walk steps 7 walk-Contains

path_exists-adjacent_example : path_exists walk 5 3 ≡ ok (adjacent 5 3 steps)
path_exists-adjacent_example = path_exists-adjacent walk 3 (5 ∷ 3 ∷ []) 5 3 walk-Contains

create_key_for_path-injective_example :
    ((str' : XdebugStr) × (create_key_for_path walk new_str ≡ ok str')
      × IsStr str' ([] ++ key steps))
    × ((fs : List ℕ) → key fs ≡ key steps → fs ≡ steps)
create_key_for_path-injective_example =
    create_key_for_path-injective walk steps new_str [] walk-Contains
      (omega arith, (omega arith, (omega arith, tt))) (inl (refl, refl))

-- A branch that goes on or leaves, and one that goes on to itself or leaves.
abbrev first : XdebugBranch
first = record {
  start_lineno = 0;
  end_lineno = 0;
  end_op = 0;
  outs_count = 2;
  outs = 1 ∷ jmp_exit ∷ 0 ∷ [];
}

abbrev second : XdebugBranch
second = record {
  start_lineno = 0;
  end_lineno = 0;
  end_op = 0;
  outs_count = 2;
  outs = 1 ∷ 0 ∷ 0 ∷ [];
}

abbrev branches : List XdebugBranch
branches = first ∷ second ∷ []

first_targets :
    (i c : ℕ) → get_elem? first.outs i ≡ some c → (c == 0) ≡ false → (c == jmp_exit) ≡ false → c < 2
first_targets zero c o z x = ground arith
first_targets (suc zero) c o z x = let e : jmp_exit ≡ c = cc in ground arith
first_targets (suc (suc zero)) c o z x = let e : 0 ≡ c = cc in ground arith
first_targets (suc (suc (suc i))) c o z x = cc

second_targets :
    (i c : ℕ)
    → get_elem? second.outs i ≡ some c
    → (c == 0) ≡ false
    → (c == jmp_exit) ≡ false
    → c < 2
second_targets zero c o z x = ground arith
second_targets (suc zero) c o z x = let e : 0 ≡ c = cc in ground arith
second_targets (suc (suc zero)) c o z x = let e : 0 ≡ c = cc in ground arith
second_targets (suc (suc (suc i))) c o z x = cc

branches-counts :
    (a : ℕ) (b : XdebugBranch) → get_elem? branches a ≡ some b → b.outs_count ≤ length b.outs
branches-counts zero b e =
    let same : first ≡ b = cc in subst (λ b. b.outs_count ≤ length b.outs) same (omega arith)
branches-counts (suc zero) b e =
    let same : second ≡ b = cc in subst (λ b. b.outs_count ≤ length b.outs) same (omega arith)
branches-counts (suc (suc a)) b e = cc

branches-targets :
    (a i c : ℕ) (b : XdebugBranch)
    → get_elem? branches a ≡ some b
    → get_elem? b.outs i ≡ some c
    → (c == 0) ≡ false
    → (c == jmp_exit) ≡ false
    → c < length branches
branches-targets zero i c b e o =
    let same : first ≡ b = cc in
    first_targets i c (subst (λ (y : XdebugBranch). get_elem? y.outs i ≡ some c) (sym same) o)
branches-targets (suc zero) i c b e o =
    let same : second ≡ b = cc in
    second_targets i c (subst (λ (y : XdebugBranch). get_elem? y.outs i ≡ some c) (sym same) o)
branches-targets (suc (suc a)) i c b e o = cc

find_path-finds_example :
    (info' : PathInfo) × (more : List XdebugPath) × (find_path
        (suc (length (edges_from 0 branches)))
        branches
        0
        none
        no_elements
      ≡ ok info')
    × Contains info' ([] ++ more)
    × AllFound 0 branches more
    × (length {A = XdebugPath} ([] ++ more) ≤ 4096)
    × (0 < length more)
find_path-finds_example =
    find_path-finds 0 branches (record { counts = branches-counts; targets = branches-targets })
      no_elements [] (omega arith) no_elements-Contains (omega arith)

abbrev four : BranchInfo
four = branch_info_create 4

below_four : 2 < four.size
unfolding branch_info_create
below_four = omega arith

branch_info_update-Writes_example :
    (info' : BranchInfo) × (b : XdebugBranch) × (b' : XdebugBranch) × (branch_info_update 2 17 0 3
        four
      ≡ ok info')
    × IsValid info'
    × Writes four.ends 2 true info'.ends
    × (get_elem? four.branches 2 ≡ some b)
    × ((i : ℕ)
        → get_elem? info'.branches i ≡ (if 2 == i then some b' else get_elem? four.branches i))
    × (b'.start_lineno ≡ 17)
    × ((j : ℕ)
        → get_elem? b'.outs j ≡ (if ltb 0 max_outs && (0 == j) then some 3 else get_elem? b.outs j))
    × (b'.outs_count ≡ (if ltb 0 max_outs && ltb b.outs_count (0 + 1) then 0 + 1 else b.outs_count))
    × ((b'.end_lineno ≡ b.end_lineno) × (b'.end_op ≡ b.end_op))
    × ((info'.starts ≡ four.starts)
        × (info'.entry_points ≡ four.entry_points)
        × (info'.size ≡ four.size))
branch_info_update-Writes_example =
    branch_info_update-Writes four 2 17 0 3 (branch_info_create-IsValid 4) below_four

-- Both branches are entry points.
abbrev both : XdebugSet
both = record { size = 2; setinfo = 3 ∷ [] }

both-IsValid : Laws.IsValid both
both-IsValid = record { wide = omega arith; bytes = both_bytes }
  where
    both_bytes : (i b : ℕ) → get_elem? both.setinfo i ≡ some b → b < 256
    both_bytes zero b e = let k : 3 ≡ b = cc in omega arith
    both_bytes (suc i) b e = cc

find_entries-finds_example :
    (info' : PathInfo) × (more : List XdebugPath) × (find_entries
        (suc (length (edges_from 0 branches)))
        branches
        both
        2
        0
        no_elements
      ≡ ok info')
    × Contains info' ([] ++ more)
    × FromEntries both branches more
    × (length {A = XdebugPath} ([] ++ more) ≤ 4096)
find_entries-finds_example =
    find_entries-finds both branches both-IsValid
      (record { counts = branches-counts; targets = branches-targets }) (omega arith) no_elements []
      no_elements-Contains (omega arith)
