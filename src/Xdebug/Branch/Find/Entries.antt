-- ===== src/Xdebug/Branch/Find/Entries.antt =====
-- The search from all entry points of a function.
use saphire.Prelude.{
  ℕ, zero, suc, ◌+◌, ◌<◌, ◌≤◌, ◌≡◌, refl, sym, ap, subst, ◌∙◌, true, false, none, List, [], ◌∷◌,
  ◌++◌, arith, length, Bool-cases, inl, inr,
}
use mathlib.Core.List.{append_assoc, append-nil}
use saphire.Clib.{Run, ok}
use saphire.Xdebug.Bitset.{XdebugSet}
use saphire.Xdebug.Bitset.Laws.{IsValid, contains, set_in-ok}
use saphire.Xdebug.Branch.{XdebugPath, PathInfo}
use saphire.Xdebug.Branch.Arrays.{Contains}
use saphire.Xdebug.Branch.Info.{XdebugBranch}
use saphire.Xdebug.Branch.Find.{find_path, is_entry, find_entries}
use saphire.Xdebug.Branch.Find.Trails.{edges_from, start, unused_le}
use saphire.Xdebug.Branch.Find.Found.{Closed, IsFound, AllFound, Adds}
use saphire.Xdebug.Branch.Find.Search.{find_path-Adds}

-- Each path holds a trail from an entry point.
abbrev pub FromEntries : XdebugSet → List XdebugBranch → List XdebugPath → Type 0
FromEntries s branches [] = Unit
FromEntries s branches (p ∷ ps) =
    ((entry : ℕ) × (contains s entry ≡ true) × IsFound entry branches p) × FromEntries s branches ps

FromEntries-append :
    (s : XdebugSet) (branches : List XdebugBranch) (entry : ℕ) (ps qs : List XdebugPath)
    → contains s entry ≡ true
    → AllFound entry branches ps
    → FromEntries s branches qs
    → FromEntries s branches (ps ++ qs)
FromEntries-append s branches entry [] qs e h k = k
FromEntries-append s branches entry (p ∷ ps) qs e h k =
    ((entry, e, h.0), FromEntries-append s branches entry ps qs e h.1 k)

is_entry-contains :
    (s : XdebugSet) (i : ℕ) → IsValid s → i ≤ s.size → is_entry s i ≡ ok (contains s i)
unfolding is_entry
is_entry-contains s i v h = let (n, read, _) = set_in-ok s i v h in rw (is_entry, read) refl

-- The rounds of the loop.
module _ (fuel : ℕ) (branches : List XdebugBranch) (s : XdebugSet) (left i : ℕ) (info : PathInfo)
    (r : Run PathInfo) where
  find_entries-skip :
      is_entry s i ≡ ok false
      → find_entries fuel branches s left (suc i) info ≡ r
      → find_entries fuel branches s (suc left) i info ≡ r
  unfolding find_entries
  find_entries-skip absent rest = rw (find_entries, absent) rest

  find_entries-search :
      (info' : PathInfo)
      → is_entry s i ≡ ok true
      → find_path fuel branches i none info ≡ ok info'
      → find_entries fuel branches s left (suc i) info' ≡ r
      → find_entries fuel branches s (suc left) i info ≡ r
  unfolding find_entries
  find_entries-search info' present here rest = rw (find_entries, present, here) rest

module _ (s : XdebugSet) (branches : List XdebugBranch) (valid : IsValid s)
    (closed : Closed branches) (small : s.size ≤ length branches) where
  abbrev depth : ℕ
  depth = suc (length (edges_from 0 branches))

  search :
      (i : ℕ) (info : PathInfo) (ps : List XdebugPath)
      → i < s.size
      → Contains info ps
      → Adds i branches ps (find_path depth branches i none info)
  search i info ps h c =
      find_path-Adds i branches closed depth i none [] info ps refl start (omega (arith, small))
        (omega (arith, unused_le (i ∷ []) (edges_from 0 branches))) c

  find_entries-loop :
      (left i : ℕ) (info : PathInfo) (ps : List XdebugPath)
      → i + left ≡ s.size
      → Contains info ps
      → length ps ≤ 4096
      → (info' : PathInfo) × (more : List XdebugPath) × (find_entries depth branches s left i info
          ≡ ok info')
        × Contains info' (ps ++ more)
        × FromEntries s branches more
        × (length (ps ++ more) ≤ 4096)
  unfolding find_entries
  find_entries-loop zero i info ps e c few = (
    info,
    [],
    refl,
    subst (Contains info) (sym (append-nil ps)) c,
    tt,
    subst (λ qs. length qs ≤ 4096) (sym (append-nil ps)) few,
  )
  find_entries-loop (suc left) i info ps e c few =
      let test : is_entry s i ≡ ok (contains s i) = is_entry-contains s i valid (omega arith) in
      elim (Bool-cases (contains s i)) [
        | inr absent ↦
            let (info', more, run, paths, found, most) =
              find_entries-loop left (suc i) info ps (omega arith) c few in
            (
              info',
              more,
              find_entries-skip depth branches s left i info _ (test ∙ ap ok absent) run,
              paths,
              found,
              most,
            )
        | inl present ↦
            let here = search i info ps (omega arith) c in
            let (info', more, run, paths, found, most) =
              find_entries-loop left (suc i) here.info (ps ++ here.more) (omega arith) here.paths
                (here.at_most few) in
            (
              info',
              here.more ++ more,
              find_entries-search depth branches s left i info _ here.info (test ∙ ap ok present)
                  here.run run,
              subst (Contains info') (append_assoc ps here.more more) paths,
              FromEntries-append s branches i here.more more present here.trails found,
              subst (λ qs. length qs ≤ 4096) (append_assoc ps here.more more) most,
            )
      ]

  -- Assume a valid set of entry points that is no larger than the branches, whose outs are in their
  -- arrays and go to branches, but for 0 and XDEBUG_JMP_EXIT, and an array with no more than 4096 paths.
  -- Then the search from all entry points ends, within the depth of one call more than there are outs, and
  -- does not fault; it adds paths up to 4096 in all, and each is a walk from an entry point along
  -- outs of the branches that takes no edge twice.
  pub find_entries-finds :
      (info : PathInfo) (ps : List XdebugPath)
      → Contains info ps
      → length ps ≤ 4096
      → (info' : PathInfo) × (more : List XdebugPath) × (find_entries
            (suc (length (edges_from 0 branches)))
            branches
            s
            s.size
            0
            info
          ≡ ok info')
        × Contains info' (ps ++ more)
        × FromEntries s branches more
        × (length (ps ++ more) ≤ 4096)
  find_entries-finds info ps c few = find_entries-loop s.size 0 info ps (omega arith) c few
