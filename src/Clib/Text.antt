-- ===== src/Clib/Text.antt =====
-- Splitting a text at a delimiter, independent of strchr.
use saphire.Prelude.{
  ℕ, ◌<◌, ◌≡◌, refl, ◌≢◌, true, false, Option, none, some, List, [], ◌∷◌, ◌++◌, ==_iff, arith,
  length, Bool, Bool-cases, inl, inr, ◌==◌, if◌then◌else◌,
}
use saphire.Clib.{Bytes, strchr_cut, bytes_eq}

-- No byte of the text is `b`.
abbrev pub Lacks : ℕ → Bytes → Type 0
Lacks b [] = Unit
Lacks b (c ∷ s) = ((c == b) ≡ false) × Lacks b s

-- Puts a byte in front of the first field.
abbrev pub prepend : ℕ → List Bytes → List Bytes
prepend c [] = (c ∷ []) ∷ []
prepend c (f ∷ fs) = (c ∷ f) ∷ fs

-- The fields between the delimiters; there is always one more than there are delimiters.
unfoldable pub fields : ℕ → Bytes → List Bytes
fields d [] = [] ∷ []
fields d (c ∷ s) = let rest = fields d s in if c == d then [] ∷ rest else prepend c rest

-- The fields behind a cut.
abbrev pub fields_after : ℕ → Option Bytes → List Bytes
fields_after d none = []
fields_after d (some s) = fields d s

pub fields-strchr_cut :
    (d : ℕ) (s : Bytes) → fields d s ≡ (strchr_cut d s).0 ∷ fields_after d (strchr_cut d s).1
unfolding fields strchr_cut
fields-strchr_cut d [] = refl
fields-strchr_cut d (c ∷ s) = ground (arith, fields-strchr_cut d s)

-- A cut leaves a shorter text.
pub strchr_cut-shorter : (d : ℕ) (s t : Bytes) → (strchr_cut d s).1 ≡ some t → length t < length s
unfolding strchr_cut
strchr_cut-shorter d [] t h = ground arith
strchr_cut-shorter d (c ∷ s) t h = ground (arith, strchr_cut-shorter d s t)

pub eq_of_bytes_eq : (s t : Bytes) → bytes_eq s t ≡ true → s ≡ t
unfolding bytes_eq
eq_of_bytes_eq [] [] h = refl
eq_of_bytes_eq [] (d ∷ t) h = cc
eq_of_bytes_eq (c ∷ s) [] h = cc
eq_of_bytes_eq (c ∷ s) (d ∷ t) h = ground (arith, eq_of_bytes_eq s t)

pub bytes_eq_refl : (s : Bytes) → bytes_eq s s ≡ true
unfolding bytes_eq
bytes_eq_refl [] = refl
bytes_eq_refl (c ∷ s) = ground (arith, bytes_eq_refl s)

pub ne_of_bytes_eq : (s t : Bytes) → bytes_eq s t ≡ false → s ≢ t
ne_of_bytes_eq s t h e =
    let k : bytes_eq s s ≡ false = rw (← e) at h in ground (arith, bytes_eq_refl s)

pub strchr_cut-Lacks : (d : ℕ) (s t : Bytes) → Lacks d s → strchr_cut d (s ++ d ∷ t) ≡ (s, some t)
unfolding strchr_cut
strchr_cut-Lacks d [] t h = let here : (d == d) ≡ true = (==_iff d d).1 refl in rw here refl
strchr_cut-Lacks d (c ∷ s) t (h, hs) = rw (h, strchr_cut-Lacks d s t hs) refl

pub strchr_cut-Lacks_all : (d : ℕ) (s : Bytes) → Lacks d s → strchr_cut d s ≡ (s, none)
unfolding strchr_cut
strchr_cut-Lacks_all d [] h = refl
strchr_cut-Lacks_all d (c ∷ s) (h, hs) = rw (h, strchr_cut-Lacks_all d s hs) refl

pub Lacks-append : (b : ℕ) (s t : Bytes) → Lacks b s → Lacks b t → Lacks b (s ++ t)
Lacks-append b [] t h k = k
Lacks-append b (c ∷ s) t (h, hs) k = (h, Lacks-append b s t hs k)

-- Whether no byte of the text is `b`.
abbrev pub lacks_byte : ℕ → Bytes → Bool
lacks_byte b [] = true
lacks_byte b (c ∷ s) = if c == b then false else lacks_byte b s

pub Lacks-lacks_byte : (b : ℕ) (s : Bytes) → lacks_byte b s ≡ true → Lacks b s
Lacks-lacks_byte b [] h = tt
Lacks-lacks_byte b (c ∷ s) h = elim (Bool-cases (c == b)) [
  | inl here ↦ let wrong : false ≡ true = rw here at h in cc
  | inr other ↦ (other, Lacks-lacks_byte b s (rw other at h))
]

pub Lacks-strchr_cut : (d : ℕ) (s : Bytes) → (strchr_cut d s).1 ≡ none → Lacks d s
unfolding strchr_cut
Lacks-strchr_cut d [] h = tt
Lacks-strchr_cut d (c ∷ s) h = elim (Bool-cases (c == d)) [
  | inl here ↦ let wrong : some s ≡ none = rw here at h in cc
  | inr other ↦ (other, Lacks-strchr_cut d s (rw other at h))
]
