-- ===== src/Xdebug/Branch/Find.antt =====
-- xdebug_branch_find_path of xdebug_branch_info.c: the search of the paths through a function's branches.
pub mod Trails
mod Rounds
pub mod Found
pub mod Search
pub mod Entries
use saphire.Prelude.{
  ℕ, zero, suc, ◌-◌, ◌^◌, Bool, true, false, not, Option, none, some, List, ltb, ◌==◌,
  if◌then◌else◌, get_elem?,
}
use saphire.Clib.{Run, ok, fault, out_of_bounds, out_of_fuel, ◌>>=◌}
use saphire.Xdebug.Bitset.{XdebugSet, set_in}
use saphire.Xdebug.Branch.Info.{jmp_exit, XdebugBranch}
use saphire.Xdebug.Branch.{
  XdebugPath, PathInfo, path_new, add_element, find_last_element, path_exists, path_info_add_path,
}

-- `out != 0 && out != XDEBUG_JMP_EXIT && !xdebug_path_exists(new_path, last, out)`.
unfoldable pub is_new_edge : XdebugPath → ℕ → ℕ → Run Bool
unfolding path_exists
is_new_edge new_path last out =
    if out == 0
    then ok false
    else if out == jmp_exit
    then ok false
    else (do there ← path_exists new_path last out; ok (not there))

-- The loop over the branch's outs, with the rounds left and the index; `visit` is the recursive call.
unfoldable pub outs_loop :
    (ℕ → PathInfo → Run PathInfo)
    → XdebugBranch
    → XdebugPath
    → ℕ
    → ℕ
    → ℕ
    → Bool
    → PathInfo
    → Run (Bool × PathInfo)
unfolding is_new_edge
outs_loop visit branch new_path last zero i found info = ok (found, info)
outs_loop visit branch new_path last (suc left) i found info = elim (get_elem? branch.outs i) [
  | none ↦ fault out_of_bounds
  | some out ↦ (do
    new_edge ← is_new_edge new_path last out
    elim new_edge [
      | true ↦ (do
        info' ← visit out info
        outs_loop visit branch new_path last left (suc i) true info')
      | false ↦ outs_loop visit branch new_path last left (suc i) found info
    ])
]

-- xdebug_branch_find_path, with the depth of the recursion that is left. A path that is not kept is
-- freed, one that is kept is never changed.
unfoldable pub find_path : ℕ → List XdebugBranch → ℕ → Option XdebugPath → PathInfo → Run PathInfo
unfolding outs_loop path_new add_element find_last_element path_info_add_path
find_path zero branches nr prev_path info = fault out_of_fuel
find_path (suc fuel) branches nr prev_path info = elim (ltb 4095 info.count) [
  | true ↦ ok info
  | false ↦ (do
    copy ← path_new prev_path
    new_path ← add_element copy nr
    last ← find_last_element new_path
    elim (get_elem? branches nr) [
      | none ↦ fault out_of_bounds
      | some branch ↦ (do
        (found, info') ←
            outs_loop (λ out i. find_path fuel branches out (some new_path) i) branch new_path last
              branch.outs_count 0 false info
        if found then ok info' else path_info_add_path info' new_path)
    ])
]

-- `if (xdebug_set_in(branch_info->entry_points, i))`.
unfoldable pub is_entry : XdebugSet → ℕ → Run Bool
unfolding set_in
is_entry entry_points i = do there ← set_in entry_points i; ok (not (there == 0))

-- The first loop of xdebug_branch_find_paths, with the rounds left and the index; `fuel` is the depth
-- that each search may have.
unfoldable pub find_entries : ℕ → List XdebugBranch → XdebugSet → ℕ → ℕ → PathInfo → Run PathInfo
unfolding find_path is_entry
find_entries fuel branches entry_points zero i info = ok info
find_entries fuel branches entry_points (suc left) i info = do
  entry ← is_entry entry_points i
  elim entry [
    | false ↦ find_entries fuel branches entry_points left (suc i) info
    | true ↦ (do
      info' ← find_path fuel branches i none info
      find_entries fuel branches entry_points left (suc i) info')
  ]
