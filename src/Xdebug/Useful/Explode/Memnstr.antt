-- ===== src/Xdebug/Useful/Explode/Memnstr.antt =====
-- xdebug_memnstr finds the first place where the needle stands.
use saphire.Prelude.{
  ℕ, zero, suc, ◌+◌, ◌-◌, ◌<◌, ◌≡◌, refl, ap, ◌∙◌, inl, inr, true, false, Option, none, some, [],
  ◌∷◌, ◌++◌, arith, length, take, drop, ◌==◌, Bool-cases,
}
use saphire.Clib.{Bytes}
use saphire.Clib.Ctype.{starts_with, shift, strstr}
use saphire.Xdebug.Useful.Explode.{memnstr_loop, memnstr}

-- A text that is too short does not begin with another.
starts_with-shorter : (needle s : Bytes) → length s < length needle → starts_with needle s ≡ false
unfolding starts_with
starts_with-shorter [] s h = absurd (omega arith)
starts_with-shorter (d ∷ ds) [] h = refl
starts_with-shorter (d ∷ ds) (c ∷ s) h = ground (arith, starts_with-shorter ds s)

abbrev shift_by : ℕ → Option ℕ → Option ℕ
shift_by i none = none
shift_by i (some k) = some (i + k)

strstr-short : (needle s : Bytes) → length s < length needle → strstr s needle ≡ none
unfolding strstr
strstr-short needle [] h = rw (starts_with-shorter needle [] h) refl
strstr-short needle (c ∷ s) h =
    rw (starts_with-shorter needle (c ∷ s) h, strstr-short needle s (omega arith)) refl

shift_by-suc : (i : ℕ) (o : Option ℕ) → shift_by (suc i) o ≡ shift_by i (shift o)
shift_by-suc i none = refl
shift_by-suc i (some k) = ap some (omega arith)

shift_by-zero : (o : Option ℕ) → shift_by 0 o ≡ o
shift_by-zero none = refl
shift_by-zero (some k) = ap some (omega arith)

memnstr_loop-strstr :
    (first : ℕ) (rest : Bytes) (room i : ℕ) (p : Bytes)
    → room ≡ length p - length rest
    → memnstr_loop first (first ∷ rest) room i p ≡ shift_by i (strstr p (first ∷ rest))
unfolding memnstr_loop strstr starts_with
memnstr_loop-strstr first rest zero i p h =
    rw (strstr-short (first ∷ rest) p (omega arith), memnstr_loop) refl
memnstr_loop-strstr first rest (suc room) i [] h = absurd (omega arith)
memnstr_loop-strstr first rest (suc room) i (c ∷ p) h =
    let ih : memnstr_loop first (first ∷ rest) room (suc i) p
        ≡ shift_by (suc i) (strstr p (first ∷ rest)) =
      memnstr_loop-strstr first rest room (suc i) p (omega arith) in
    elim (Bool-cases (c == first)) [
      | inl same ↦ elim (Bool-cases (starts_with rest p)) [
        | inl here ↦ rw (same, here) (ap some (omega arith))
        | inr there ↦ rw (same, there) (ih ∙ shift_by-suc i (strstr p (first ∷ rest)))
      ]
      | inr other ↦ rw other (ih ∙ shift_by-suc i (strstr p (first ∷ rest)))
    ]

-- xdebug_memnstr finds what strstr finds.
pub memnstr-strstr :
    (haystack : Bytes) (first : ℕ) (rest : Bytes)
    → memnstr haystack first rest ≡ strstr haystack (first ∷ rest)
unfolding memnstr
memnstr-strstr haystack first rest =
    memnstr_loop-strstr first rest (length haystack - length rest) 0 haystack refl
    ∙ shift_by-zero (strstr haystack (first ∷ rest))

starts_with-split :
    (needle s : Bytes) → starts_with needle s ≡ true → s ≡ needle ++ drop (length needle) s
unfolding starts_with
starts_with-split [] s h = refl
starts_with-split (d ∷ ds) [] h = cc
starts_with-split (d ∷ ds) (c ∷ s) h =
    let same : c ≡ d = ground arith in
    rw same (ap (λ t. d ∷ t) (starts_with-split ds s (ground arith)))

shift-some : (o : Option ℕ) (i : ℕ) → shift o ≡ some i → (k : ℕ) × (o ≡ some k) × (i ≡ suc k)
shift-some none i h = cc
shift-some (some k) i h = (k, refl, cc)

-- The needle stands where it is found.
pub strstr-found :
    (s needle : Bytes) (i : ℕ)
    → strstr s needle ≡ some i
    → s ≡ take i s ++ (needle ++ drop (i + length needle) s)
unfolding strstr
strstr-found [] needle i h = elim (Bool-cases (starts_with needle [])) [
  | inl here ↦
      let first : some 0 ≡ some i = rw here at h in
      let zeroth : i ≡ 0 = cc in
      let nothing : 0 + length needle ≡ length needle = omega arith in
      rw (zeroth, nothing) (starts_with-split needle [] here)
  | inr there ↦ let k : none ≡ some i = rw there at h in cc
]
strstr-found (c ∷ s) needle i h = elim (Bool-cases (starts_with needle (c ∷ s))) [
  | inl here ↦
      let first : some 0 ≡ some i = rw here at h in
      let zeroth : i ≡ 0 = cc in
      let nothing : 0 + length needle ≡ length needle = omega arith in
      rw (zeroth, nothing) (starts_with-split needle (c ∷ s) here)
  | inr there ↦
      let (k, found, e) = shift-some (strstr s needle) i (rw there at h) in
      let next : suc k + length needle ≡ suc (k + length needle) = omega arith in
      rw (e, next) (ap (λ t. c ∷ t) (strstr-found s needle k found))
]
