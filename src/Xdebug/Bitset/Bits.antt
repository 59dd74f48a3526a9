-- ===== src/Xdebug/Bitset/Bits.antt =====
-- The bits of one byte, checked over all bytes.
use saphire.Prelude.{
  ℕ, ◌<◌, ◌≡◌, refl, Bool, true, not, ◌||◌, ◌&&◌, ◌==◌, if◌then◌else◌, arith, check_from,
  check_from_sound, bool_eq_of, ltb,
}
use saphire.Xdebug.Bitset.{with_bit, without_bit, masked}

-- Whether a bit is set.
abbrev pub has_bit : ℕ → ℕ → Bool
has_bit byte bit = not (masked byte bit == 0)

abbrev same : Bool → Bool → Bool
same a b = if a then b else not b

-- A property of a byte and two bits, for all of them.
abbrev for_all : (ℕ → ℕ → ℕ → Bool) → Bool
for_all p = check_from (λ b. check_from (λ i. check_from (p b i) 0 8) 0 8) 0 256

for_all_sound :
    (p : ℕ → ℕ → ℕ → Bool) (b i j : ℕ) → for_all p ≡ true → b < 256 → i < 8 → j < 8 → p b i j ≡ true
for_all_sound p b i j h hb hi hj =
    let row = check_from_sound _ 256 0 b h (omega arith) hb in
    let cell = check_from_sound _ 8 0 i row (omega arith) hi in
    check_from_sound (p b i) 8 0 j cell (omega arith) hj

with_bit_table :
    for_all
      (λ b i j. ltb (with_bit b i) 256 && same (has_bit (with_bit b i) j) ((i == j) || has_bit b j))
    ≡ true
unfolding check_from with_bit masked
with_bit_table = refl

without_bit_table :
    for_all (λ b i j.
      ltb (without_bit b i) 256 && same (has_bit (without_bit b i) j) (not (i == j) && has_bit b j))
    ≡ true
unfolding check_from without_bit masked
without_bit_table = refl

module _ (b i j : ℕ) (hb : b < 256) (hi : i < 8) (hj : j < 8) where
  pub has_bit-with_bit :
      (with_bit b i < 256) × (has_bit (with_bit b i) j ≡ ((i == j) || has_bit b j))
  has_bit-with_bit =
      let t = for_all_sound _ b i j with_bit_table hb hi hj in
      (ground arith, bool_eq_of _ _ (ground arith))

  pub has_bit-without_bit :
      (without_bit b i < 256) × (has_bit (without_bit b i) j ≡ (not (i == j) && has_bit b j))
  has_bit-without_bit =
      let t = for_all_sound _ b i j without_bit_table hb hi hj in
      (ground arith, bool_eq_of _ _ (ground arith))
