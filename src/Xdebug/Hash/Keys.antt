-- ===== src/Xdebug/Hash/Keys.antt =====
-- The comparison of keys decides equality, but for texts of length 0.
use saphire.Prelude.{ℕ, ◌≡◌, refl, ap, Bool, true, false, [], ◌∷◌, arith, length, ◌==◌}
use saphire.Clib.{Bytes, ok, bytes_eq}
use saphire.Clib.Text.{eq_of_bytes_eq, bytes_eq_refl}
use saphire.Xdebug.Hash.{Key, str, num, first_byte, str_compare, key_compare}

-- A text key holds a byte at least.
abbrev pub IsKey : Key → Type 0
IsKey (str []) = ⊥
IsKey (str (c ∷ s)) = Unit
IsKey (num a) = Unit

unfoldable pub key_eq : Key → Key → Bool
key_eq (num a) (num b) = a == b
key_eq (str s) (str t) = bytes_eq s t
key_eq (num a) (str t) = false
key_eq (str s) (num b) = false

-- Texts of different lengths differ.
bytes_eq-length : (s t : Bytes) → (length s == length t) ≡ false → bytes_eq s t ≡ false
unfolding bytes_eq
bytes_eq-length [] [] h = cc
bytes_eq-length [] (d ∷ t) h = refl
bytes_eq-length (c ∷ s) [] h = refl
bytes_eq-length (c ∷ s) (d ∷ t) h = ground (arith, bytes_eq-length s t)

str_compare-bytes_eq : (c : ℕ) (s t : Bytes) → str_compare (c ∷ s) t ≡ ok (bytes_eq (c ∷ s) t)
unfolding str_compare first_byte bytes_eq
str_compare-bytes_eq c s [] = ground arith
str_compare-bytes_eq c s (d ∷ t) = ground (arith, bytes_eq-length s t)

-- For keys with a byte the comparison does not fault and is true exactly for equal keys.
pub key_compare-key_eq : (k j : Key) → IsKey k → key_compare k j ≡ ok (key_eq k j)
unfolding key_compare key_eq
key_compare-key_eq (str []) j h = absurd h
key_compare-key_eq (str (c ∷ s)) (str t) h = str_compare-bytes_eq c s t
key_compare-key_eq (str (c ∷ s)) (num b) h = refl
key_compare-key_eq (num a) (num b) h = refl
key_compare-key_eq (num a) (str t) h = refl

pub eq_of_key_eq : (k j : Key) → key_eq k j ≡ true → k ≡ j
unfolding key_eq
eq_of_key_eq (num a) (num b) h = ground arith
eq_of_key_eq (str s) (str t) h = ap str (eq_of_bytes_eq s t h)
eq_of_key_eq (num a) (str t) h = cc
eq_of_key_eq (str s) (num b) h = cc

pub key_eq_refl : (k : Key) → key_eq k k ≡ true
unfolding key_eq
key_eq_refl (num a) = ground arith
key_eq_refl (str s) = bytes_eq_refl s

pub key_eq_symm : (k j : Key) → key_eq k j ≡ key_eq j k
key_eq_symm k j = ground (arith, eq_of_key_eq k j, eq_of_key_eq j k, key_eq_refl k, key_eq_refl j)
