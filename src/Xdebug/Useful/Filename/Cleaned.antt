-- ===== src/Xdebug/Useful/Filename/Cleaned.antt =====
-- The loop over strpbrk ends, with each byte of the set replaced.
use saphire.Prelude.{
  ℕ, zero, suc, ◌<◌, ◌≡◌, refl, sym, ap, ◌∙◌, inl, inr, true, false, Option, none, some, [], ◌∷◌,
  arith, ◌==◌, ==_iff, if◌then◌else◌, length, Bool-cases, Option-cases,
}
use saphire.Clib.{Bytes, ok, ◌>>=◌}
use saphire.Clib.Text.{Lacks, lacks_byte}
use saphire.Xdebug.Useful.Filename.{replace_first, clean_loop, clean, replace_dot}

-- Each byte of the set as an underscore.
unfoldable pub cleaned : Bytes → Bytes → Bytes
cleaned set [] = []
cleaned set (c ∷ s) = let rest = cleaned set s in if lacks_byte c set then c ∷ rest else b'_' ∷ rest

replace_first-cons :
    (set s : Bytes) (c : ℕ) (r : Option Bytes)
    → lacks_byte c set ≡ true
    → replace_first set s ≡ r
    → replace_first set (c ∷ s) ≡ elim r [ none ↦ none | some s' ↦ some (c ∷ s') ]
unfolding replace_first
replace_first-cons set s c r h found = rw (replace_first, h, found) refl

clean_loop-none :
    (fuel : ℕ) (set s : Bytes) → replace_first set s ≡ none → clean_loop (suc fuel) set s ≡ ok s
unfolding clean_loop
clean_loop-none fuel set s h = rw (clean_loop, h) refl

clean_loop-some :
    (fuel : ℕ) (set s s' : Bytes)
    → replace_first set s ≡ some s'
    → clean_loop (suc fuel) set s ≡ clean_loop fuel set s'
unfolding clean_loop
clean_loop-some fuel set s s' h = rw (clean_loop, h) refl

module _ (set : Bytes) (plain : lacks_byte b'_' set ≡ true) where
  -- The loop goes on behind a byte that is not in the set.
  clean_loop-plain :
      (fuel c : ℕ) (s t : Bytes)
      → lacks_byte c set ≡ true
      → clean_loop fuel set s ≡ ok t
      → clean_loop fuel set (c ∷ s) ≡ ok (c ∷ t)
  unfolding clean_loop replace_first
  clean_loop-plain zero c s t h run = cc
  clean_loop-plain (suc fuel) c s t h run = elim (Option-cases (replace_first set s)) [
    | inl nothing ↦
        clean_loop-none fuel set (c ∷ s) (replace_first-cons set s c none h nothing)
        ∙ ap (λ r. r >>= λ t. ok (c ∷ t)) (sym (clean_loop-none fuel set s nothing) ∙ run)
    | inr (s', found) ↦
        clean_loop-some fuel set (c ∷ s) (c ∷ s') (replace_first-cons set s c (some s') h found)
        ∙ clean_loop-plain fuel c s' t h (sym (clean_loop-some fuel set s s' found) ∙ run)
  ]

  clean_loop-cleaned :
      (fuel : ℕ) (s : Bytes) → length s < fuel → clean_loop fuel set s ≡ ok (cleaned set s)
  unfolding clean_loop cleaned replace_first
  clean_loop-cleaned zero s h = absurd (omega arith)
  clean_loop-cleaned (suc fuel) [] h = refl
  clean_loop-cleaned (suc fuel) (c ∷ s) h = elim (Bool-cases (lacks_byte c set)) [
    | inl stays ↦
        clean_loop-plain (suc fuel) c s (cleaned set s) stays
          (clean_loop-cleaned (suc fuel) s (omega (arith, h)))
        ∙ rw stays refl
    | inr goes ↦
        rw (clean_loop, replace_first, goes)
          (clean_loop-plain fuel b'_' s (cleaned set s) plain
            (clean_loop-cleaned fuel s (omega (arith, h))))
  ]

  pub clean_lem : (s : Bytes) → clean set s ≡ ok (cleaned set s)
  unfolding clean
  clean_lem s = clean_loop-cleaned (suc (length s)) s (omega arith)

-- No byte of the set is left but an underscore.
pub cleaned-Lacks :
    (b : ℕ) (set s : Bytes)
    → lacks_byte b set ≡ false
    → (b'_' == b) ≡ false
    → Lacks b (cleaned set s)
unfolding cleaned
cleaned-Lacks b set [] h k = tt
cleaned-Lacks b set (c ∷ s) h k = elim (Bool-cases (lacks_byte c set)) [
  | inl stays ↦
      let differ : (c == b) ≡ false = not_same c b set stays h in
      rw stays (differ, cleaned-Lacks b set s h k)
  | inr goes ↦ rw goes (k, cleaned-Lacks b set s h k)
]
  where
    not_same :
        (c b : ℕ) (set : Bytes)
        → lacks_byte c set ≡ true
        → lacks_byte b set ≡ false
        → (c == b) ≡ false
    not_same c b set stays h = elim (Bool-cases (c == b)) [
      | inl here ↦
          let same : c ≡ b = (==_iff c b).0 here in
          let wrong : true ≡ false = sym stays ∙ ap (λ d. lacks_byte d set) same ∙ h in cc
      | inr other ↦ other
    ]

pub replace_dot-Lacks :
    (b : ℕ) (s : Bytes) → (b'_' == b) ≡ false → Lacks b s → Lacks b (replace_dot s)
unfolding replace_dot
replace_dot-Lacks b [] k h = tt
replace_dot-Lacks b (c ∷ s) k (h, hs) = elim (Bool-cases (lacks_byte b'.' s)) [
  | inl last ↦ elim (Bool-cases (c == b'.')) [
    | inl dot ↦ rw (last, dot) (k, hs)
    | inr other ↦ rw (last, other) (h, hs)
  ]
  | inr later ↦ rw later (h, replace_dot-Lacks b s k hs)
]
