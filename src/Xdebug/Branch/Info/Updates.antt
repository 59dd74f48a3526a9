-- ===== src/Xdebug/Branch/Info/Updates.antt =====
-- The updates of a function's branches stay within the sets and arrays that were made for it.
use saphire.Prelude.{
  ℕ, zero, suc, ◌+◌, ◌<◌, ◌≤◌, ◌≡◌, refl, sym, subst, ◌∙◌, true, ◌&&◌, some, arith, ltb, ◌==◌,
  if◌then◌else◌, length, length-set, length-replicate, get_elem?, get_elem?-set, get_elem?-lt, set,
  replicate, Bool-cases, inl, inr,
}
use saphire.Clib.{ok}
use saphire.Xdebug.Bitset.Laws.{Writes, set_add-Writes, set_create-empty}
use saphire.Xdebug.Bitset.Laws as Laws
use saphire.Xdebug.Branch.Info.{
  XdebugBranch, BranchInfo, max_outs, zero_branch, branch_info_create, put_out, branch_info_update,
}

-- A branch has the array of outs that C gives it.
pub record IsBranch (b : XdebugBranch) : Type 0 where
  pub outs : length b.outs ≡ max_outs
  pub count : b.outs_count ≤ max_outs

-- The sets are valid and all is as large as the size says.
pub record IsValid (info : BranchInfo) : Type 0 where
  pub entry_points : Laws.IsValid info.entry_points × (info.entry_points.size ≡ info.size)
  pub starts : Laws.IsValid info.starts × (info.starts.size ≡ info.size)
  pub ends : Laws.IsValid info.ends × (info.ends.size ≡ info.size)
  pub branches : length info.branches ≡ info.size
  pub each : (i : ℕ) (b : XdebugBranch) → get_elem? info.branches i ≡ some b → IsBranch b

zero_branch-IsBranch : IsBranch zero_branch
zero_branch-IsBranch = record { outs = length-replicate {A = ℕ} max_outs 0; count = omega arith }

replicate-IsBranch :
    (n i : ℕ) (b : XdebugBranch) → get_elem? (replicate n zero_branch) i ≡ some b → IsBranch b
replicate-IsBranch zero i b h = cc
replicate-IsBranch (suc n) zero b h =
    let e : zero_branch ≡ b = cc in subst IsBranch e zero_branch-IsBranch
replicate-IsBranch (suc n) (suc i) b h = replicate-IsBranch n i b h

-- What xdebug_branch_info_create makes is valid.
pub branch_info_create-IsValid : (size : ℕ) → IsValid (branch_info_create size)
unfolding branch_info_create
branch_info_create-IsValid size =
    let (valid, same, _) = set_create-empty size in
    record {
      entry_points = (valid, same);
      starts = (valid, same);
      ends = (valid, same);
      branches = length-replicate size zero_branch;
      each = replicate-IsBranch size;
    }

put_out-IsBranch :
    (outidx jump_pos : ℕ) (b : XdebugBranch) → IsBranch b → IsBranch (put_out outidx jump_pos b)
unfolding put_out
put_out-IsBranch outidx jump_pos b h = elim (Bool-cases (ltb outidx max_outs)) [
  | inl fits ↦ rw fits (record {
    outs = length-set b.outs outidx jump_pos ∙ h.outs;
    count = ground (arith, h.count);
  })
  | inr beyond ↦ rw beyond h
]

put_out-outs :
    (outidx jump_pos j : ℕ) (b : XdebugBranch)
    → IsBranch b
    → get_elem? (put_out outidx jump_pos b).outs j
      ≡ (if ltb outidx max_outs && (outidx == j) then some jump_pos else get_elem? b.outs j)
unfolding put_out
put_out-outs outidx jump_pos j b h = elim (Bool-cases (ltb outidx max_outs)) [
  | inl fits ↦ rw fits (get_elem?-set b.outs outidx j jump_pos (ground (arith, h.outs)))
  | inr beyond ↦ rw beyond refl
]

put_out-counts :
    (outidx jump_pos : ℕ) (b : XdebugBranch)
    → (let b' = put_out outidx jump_pos b in
        (b'.outs_count ≡ (
          if ltb outidx max_outs && ltb b.outs_count (outidx + 1)
          then outidx + 1
          else b.outs_count))
        × ((b'.end_lineno ≡ b.end_lineno) × (b'.end_op ≡ b.end_op)))
unfolding put_out
put_out-counts outidx jump_pos b = ground arith

abbrev with_lineno : ℕ → XdebugBranch → XdebugBranch
with_lineno lineno b = record b { start_lineno = lineno }

with_lineno-IsBranch :
    (lineno : ℕ) (b : XdebugBranch) → IsBranch b → IsBranch (with_lineno lineno b)
with_lineno-IsBranch lineno b h = record { outs = h.outs; count = h.count }

-- A branch of the array after one was stored at `pos`.
set-IsBranch :
    (info : BranchInfo) (v : IsValid info) (pos : ℕ) (b' : XdebugBranch) (h : IsBranch b') (i : ℕ)
    (c : XdebugBranch)
    → (if pos == i then some b' else get_elem? info.branches i) ≡ some c
    → IsBranch c
set-IsBranch info v pos b' h i c e = elim (Bool-cases (pos == i)) [
  | inl here ↦
      let k : some b' ≡ some c = rw here at e in let same : b' ≡ c = cc in subst IsBranch same h
  | inr away ↦ v.each i c (rw away at e)
]

-- For a valid record and a position below its size xdebug_branch_info_update does not fault, and the record
-- stays valid: the position is added to the ends, its branch gets the line and, if the index of the out
-- is below 64, that out and no other, and its count of outs becomes the index and one exactly if it was
-- lower. Its last line and last opcode, all other branches, the starts, the entry points and the size
-- stay as they are.
pub branch_info_update-Writes :
    (info : BranchInfo) (pos lineno outidx jump_pos : ℕ)
    → IsValid info
    → pos < info.size
    → (info' : BranchInfo) × (b : XdebugBranch) × (b' : XdebugBranch) × (branch_info_update pos
          lineno outidx jump_pos info
        ≡ ok info')
      × IsValid info'
      × Writes info.ends pos true info'.ends
      × (get_elem? info.branches pos ≡ some b)
      × ((i : ℕ)
          → get_elem? info'.branches i ≡ (if pos == i then some b' else get_elem? info.branches i))
      × (b'.start_lineno ≡ lineno)
      × ((j : ℕ)
          → get_elem? b'.outs j
            ≡ (if ltb outidx max_outs && (outidx == j) then some jump_pos else get_elem? b.outs j))
      × (b'.outs_count ≡ (
          if ltb outidx max_outs && ltb b.outs_count (outidx + 1)
          then outidx + 1
          else b.outs_count))
      × ((b'.end_lineno ≡ b.end_lineno) × (b'.end_op ≡ b.end_op))
      × ((info'.starts ≡ info.starts)
          × (info'.entry_points ≡ info.entry_points)
          × (info'.size ≡ info.size))
unfolding branch_info_update
branch_info_update-Writes info pos lineno outidx jump_pos v h =
    let (ends, add, writes) = set_add-Writes info.ends pos v.ends.0 (omega (arith, v.ends.1, h)) in
    let (b, at) = get_elem?-lt info.branches pos (omega (arith, v.branches, h)) in
    let b' = with_lineno lineno (put_out outidx jump_pos b) in
    let stored : (i : ℕ)
        → get_elem? (set info.branches pos b') i
          ≡ (if pos == i then some b' else get_elem? info.branches i) =
      λ i. get_elem?-set info.branches pos i b' (omega (arith, v.branches, h)) in
    (
      record info { ends = ends; branches = set info.branches pos b' },
      b,
      b',
      rw (branch_info_update, add, at) refl,
      record {
        entry_points = v.entry_points;
        starts = v.starts;
        ends = (writes.valid, writes.size ∙ v.ends.1);
        branches = length-set info.branches pos b' ∙ v.branches;
        each = λ i c e.
            set-IsBranch info v pos b'
              (with_lineno-IsBranch lineno _ (put_out-IsBranch outidx jump_pos b (v.each pos b at)))
              i c (sym (stored i) ∙ e);
      },
      writes,
      at,
      stored,
      refl,
      λ j. put_out-outs outidx jump_pos j b (v.each pos b at),
      (put_out-counts outidx jump_pos b).0,
      (put_out-counts outidx jump_pos b).1,
      (refl, refl, refl),
    )
