-- ===== src/Xdebug/Branch/Info.antt =====
-- xdebug_branch_info.c, what is known of a function's branches: xdebug_branch_info_create and
-- xdebug_branch_info_update.
pub mod Updates
use saphire.Prelude.{
  ℕ, ◌+◌, ◌-◌, ◌^◌, Bool, Option, none, some, List, ltb, if◌then◌else◌, get_elem?, set, replicate,
}
use saphire.Clib.{Run, ok, fault, out_of_bounds, ◌>>=◌}
use saphire.Xdebug.Bitset.{XdebugSet, set_create, set_add}

-- XDEBUG_JMP_EXIT.
abbrev pub jmp_exit : ℕ
jmp_exit = 2 ^ 31 - 3

-- XDEBUG_BRANCH_MAX_OUTS.
abbrev pub max_outs : ℕ
max_outs = 64

-- struct xdebug_branch, but for the two fields of hits. An `int` of `outs` is written as the 32-bit
-- word that it is passed on as.
pub record XdebugBranch : Type 0 where
  pub start_lineno : ℕ
  pub end_lineno : ℕ
  pub end_op : ℕ
  pub outs_count : ℕ
  pub outs : List ℕ

-- struct xdebug_branch_info without its paths.
pub record BranchInfo : Type 0 where
  pub size : ℕ
  pub entry_points : XdebugSet
  pub starts : XdebugSet
  pub ends : XdebugSet
  pub branches : List XdebugBranch

-- A branch as calloc makes it.
abbrev pub zero_branch : XdebugBranch
zero_branch = record {
  start_lineno = 0;
  end_lineno = 0;
  end_op = 0;
  outs_count = 0;
  outs = replicate max_outs 0;
}

-- xdebug_branch_info_create.
unfoldable pub branch_info_create : ℕ → BranchInfo
unfolding set_create
branch_info_create size = record {
  size = size;
  entry_points = set_create size;
  starts = set_create size;
  ends = set_create size;
  branches = replicate size zero_branch;
}

-- What `if (outidx < XDEBUG_BRANCH_MAX_OUTS)` guards; the array has so many elements.
unfoldable pub put_out : ℕ → ℕ → XdebugBranch → XdebugBranch
put_out outidx jump_pos b =
    if ltb outidx max_outs
    then record b {
      outs = set b.outs outidx jump_pos;
      outs_count = if ltb b.outs_count (outidx + 1) then outidx + 1 else b.outs_count;
    }
    else b

-- xdebug_branch_info_update.
unfoldable pub branch_info_update : ℕ → ℕ → ℕ → ℕ → BranchInfo → Run BranchInfo
unfolding set_add put_out
branch_info_update pos lineno outidx jump_pos branch_info = do
  ends ← set_add branch_info.ends pos
  elim (get_elem? branch_info.branches pos) [
    | none ↦ fault out_of_bounds
    | some b ↦ ok (record branch_info {
      ends = ends;
      branches =
          set branch_info.branches pos
            (record (put_out outidx jump_pos b) { start_lineno = lineno });
    })
  ]
