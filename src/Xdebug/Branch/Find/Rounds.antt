-- ===== src/Xdebug/Branch/Find/Rounds.antt =====
-- The steps of the search, one round of the loop or one call at a time.
use saphire.Prelude.{
  ℕ, suc, ◌≡◌, ◌⊎◌, refl, sym, subst, Bool, true, false, Option, none, some, List, [], ◌∷◌, ◌++◌,
  ◌==◌, if◌then◌else◌, get_elem?, Bool-cases, inl, inr, ltb,
}
use saphire.Clib.{Run, ok}
use saphire.Xdebug.Branch.{
  XdebugPath, PathInfo, no_elements, path_new, add_element, find_last_element, path_exists,
  path_info_add_path,
}
use saphire.Xdebug.Branch.Arrays.{Contains, no_elements-Contains}
use saphire.Xdebug.Branch.Paths.{adjacent, path_exists-append, copy-Contains}
use saphire.Xdebug.Branch.Info.{XdebugBranch, jmp_exit}
use saphire.Xdebug.Branch.Find.{is_new_edge, outs_loop, find_path}

-- What the test on an out says.
pub is_new_edge-cases :
    (p : XdebugPath) (front : List ℕ) (last out : ℕ)
    → Contains p (front ++ last ∷ [])
    → (is_new_edge p last out ≡ ok false)
      ⊎ ((is_new_edge p last out ≡ ok true)
          × ((out == 0) ≡ false)
          × ((out == jmp_exit) ≡ false)
          × (adjacent last out (front ++ last ∷ []) ≡ false))
unfolding is_new_edge
is_new_edge-cases p front last out h = elim (Bool-cases (out == 0)) [
  | inl zero_out ↦ inl (rw (is_new_edge, zero_out) refl)
  | inr some_out ↦ elim (Bool-cases (out == jmp_exit)) [
    | inl exit_out ↦ inl (rw (is_new_edge, some_out, exit_out) refl)
    | inr target ↦
        let there : path_exists p last out ≡ ok (adjacent last out (front ++ last ∷ [])) =
          path_exists-append p front last last out h in
        elim (Bool-cases (adjacent last out (front ++ last ∷ []))) [
          | inl old ↦ inl (rw (is_new_edge, some_out, target, there, old) refl)
          | inr new ↦
              inr (rw (is_new_edge, some_out, target, there, new) refl, some_out, target, new)
        ]
  ]
]

-- The path before the call, if there is one.
abbrev pub IsPrev : Option XdebugPath → List ℕ → Type 0
IsPrev none front = front ≡ []
IsPrev (some p) front = Contains p front

pub IsPrev-copy :
    (prev : Option XdebugPath) (front : List ℕ)
    → IsPrev prev front
    → (path : XdebugPath) × (path_new prev ≡ ok path) × Contains path front
unfolding path_new
IsPrev-copy none front h =
    (no_elements, refl, subst (Contains no_elements) (sym h) no_elements-Contains)
IsPrev-copy (some p) front h = copy-Contains p front h

-- The rounds of the loop, and the call on a branch.
module _ (visit : ℕ → PathInfo → Run PathInfo) (branch : XdebugBranch) (path : XdebugPath)
    (last left i out : ℕ) (found : Bool) (info : PathInfo) (r : Run (Bool × PathInfo))
    (o : get_elem? branch.outs i ≡ some out) where
  pub outs_loop-skip :
      is_new_edge path last out ≡ ok false
      → outs_loop visit branch path last left (suc i) found info ≡ r
      → outs_loop visit branch path last (suc left) i found info ≡ r
  unfolding outs_loop
  outs_loop-skip skip rest = rw (outs_loop, o, skip) rest

  pub outs_loop-visit :
      (info' : PathInfo)
      → is_new_edge path last out ≡ ok true
      → visit out info ≡ ok info'
      → outs_loop visit branch path last left (suc i) true info' ≡ r
      → outs_loop visit branch path last (suc left) i found info ≡ r
  unfolding outs_loop
  outs_loop-visit info' taken here rest = rw (outs_loop, o, taken, here) rest

pub find_path-full :
    (fuel : ℕ) (branches : List XdebugBranch) (nr : ℕ) (prev : Option XdebugPath) (info : PathInfo)
    → ltb 4095 info.count ≡ true
    → find_path (suc fuel) branches nr prev info ≡ ok info
unfolding find_path
find_path-full fuel branches nr prev info full = rw (find_path, full) refl

pub find_path-room :
    (fuel : ℕ) (branches : List XdebugBranch) (nr : ℕ) (prev : Option XdebugPath) (info : PathInfo)
    (copy path : XdebugPath) (branch : XdebugBranch) (found : Bool) (info' : PathInfo)
    → ltb 4095 info.count ≡ false
    → path_new prev ≡ ok copy
    → add_element copy nr ≡ ok path
    → find_last_element path ≡ ok nr
    → get_elem? branches nr ≡ some branch
    → outs_loop
        (λ out i. find_path fuel branches out (some path) i)
        branch
        path
        nr
        branch.outs_count
        0
        false
        info
      ≡ ok (found, info')
    → find_path (suc fuel) branches nr prev info
      ≡ (if found then ok info' else path_info_add_path info' path)
unfolding find_path
find_path-room fuel branches nr prev info copy path branch found info' room copied added last at
      loop =
    rw (find_path, room, copied, added, last, at, loop) refl
