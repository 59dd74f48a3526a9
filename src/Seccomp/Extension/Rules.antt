-- ===== src/Seccomp/Extension/Rules.antt =====
-- The rules that are added to the libseccomp context, and what it then permits.
use saphire.Prelude.{
  ℕ, suc, ◌≡◌, refl, inl, inr, Bool, true, false, ◌&&◌, ◌||◌, some, List, [], ◌∷◌, arith, length,
  Bool-cases,
}
use saphire.Prelude.Int.{ℤ, int_eq, int_eq_iff}
use saphire.Clib.{ok}
use saphire.Seccomp.Libs.{Seccomp, SeccompLaws, allow}
use saphire.Seccomp.Profile.{Row}
use saphire.Seccomp.Profile.Parse.{Reads}
use saphire.Seccomp.Extension.{rule_add_allow, add_fpm, add_row}

-- Whether a number stands in a list.
abbrev pub listed_in : ℤ → List ℤ → Bool
listed_in m [] = false
listed_in m (n ∷ ns) = int_eq n m || listed_in m ns

module _ (sec : Seccomp) where
  -- The context after an allowing rule for each number.
  unfoldable pub allow_all : sec.Ctx → List ℤ → sec.Ctx
  allow_all c [] = c
  allow_all c (n ∷ ns) = allow_all (sec.rule_add c allow n).0 ns

  pub add_fpm-allow_all :
      (ns : List ℤ) (c : sec.Ctx) → add_fpm sec ns (some c) ≡ some (allow_all c ns)
  unfolding add_fpm rule_add_allow allow_all
  add_fpm-allow_all [] c = refl
  add_fpm-allow_all (n ∷ ns) c = add_fpm-allow_all ns (sec.rule_add c allow n).0

  -- The loop over a row that holds `ns` from the index on adds a rule for each of them.
  pub add_row-allow_all :
      (row : Row) (i : ℕ) (ns : List ℤ) (c : sec.Ctx)
      → Reads row i ns
      → add_row sec row (length ns) i (some c) ≡ ok (some (allow_all c ns))
  unfolding add_row rule_add_allow allow_all
  add_row-allow_all row i [] c reads = refl
  add_row-allow_all row i (n ∷ ns) c reads =
      rw (reads.0, add_row) (add_row-allow_all row (suc i) ns (sec.rule_add c allow n).0 reads.1)

module _ {sec : Seccomp} (laws : SeccompLaws sec) where
  pub allow_all-permits :
      (c : sec.Ctx) (ns : List ℤ) (m : ℤ)
      → laws.permits (allow_all sec c ns) m
        ≡ ((laws.supported m && listed_in m ns) || laws.permits c m)
  unfolding allow_all
  allow_all-permits c [] m = ground arith
  allow_all-permits c (n ∷ ns) m =
      rw (allow_all-permits (sec.rule_add c allow n).0 ns m, laws.rule_add_allow c n m)
        (elim (Bool-cases (int_eq n m)) [
          | inl same ↦ rw (same, (int_eq_iff n m).0 same) (absorb (laws.supported m) _ _)
          | inr other ↦ rw other (skip (laws.supported n) (laws.supported m && listed_in m ns) _)
        ])
    where
      absorb : (s a p : Bool) → ((s && a) || ((s && true) || p)) ≡ ((s && true) || p)
      absorb s a p = ground arith

      skip : (s p q : Bool) → (p || ((s && false) || q)) ≡ (p || q)
      skip s p q = ground arith
