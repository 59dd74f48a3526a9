-- ===== src/Clib.antt =====
-- What the C code takes from its language and standard library: bytes, strings that end where
-- their NUL would stand, faults in place of undefined behaviour, strchr and atoi.
pub mod Text
pub mod Decimal
pub mod Ctype
use Prim.Native.String.{String}
use Prim.Native.Char.{code}
use saphire.Prelude.{
  ℕ, ◌+◌, ◌-◌, ◌*◌, ◌%◌, ◌^◌, ◌≡◌, refl, ◌⊎◌, inl, inr, Bool, true, false, ◌&&◌, ◌||◌, Option, none,
  some, List, [], ◌∷◌, ltb, leb, ◌==◌, if◌then◌else◌,
}
use saphire.Prelude.Int.{ℤ, pos, negsuc, neg}

-- A `char *` string, without its terminating NUL. A byte is a number below 256.
abbrev pub Bytes : Type 0
Bytes = List ℕ

-- The bytes of a literal text.
abbrev pub codes : String → Bytes
codes String.[] = []
codes (String.◌∷◌ c s) = code c ∷ codes s

-- What undefined behaviour is reached, or that the rounds given to a loop ran out.
pub data Fault : Type 0 where
  out_of_bounds null_pointer uninitialised int_overflow out_of_fuel : Fault

pub data Run {ℓ} (A : Type ℓ) : Type ℓ where
  ok : A → Run A
  fault : Fault → Run A

infixl 5 ◌>>=◌
abbrev pub ◌>>=◌ {ℓ κ} : {A : Type ℓ} {B : Type κ} → Run A → (A → Run B) → Run B
ok a >>= f = f a
fault e >>= f = fault e

-- `p = strchr(s, d); if (p) *p = 0;`: what `s` is then, and the text at `p + 1`.
unfoldable pub strchr_cut : ℕ → Bytes → Bytes × Option Bytes
strchr_cut d [] = ([], none)
strchr_cut d (c ∷ s) =
    let rest = strchr_cut d s in if c == d then ([], some s) else (c ∷ rest.0, rest.1)

-- isspace in the C locale.
unfoldable pub is_space : ℕ → Bool
is_space c = (c == 32) || (leb 9 c && leb c 13)

unfoldable pub is_digit : ℕ → Bool
is_digit c = leb 48 c && leb c 57

unfoldable pub skip_space : Bytes → Bytes
unfolding is_space
skip_space [] = []
skip_space (c ∷ s) = if is_space c then skip_space s else c ∷ s

unfoldable pub digits_value : ℕ → Bytes → ℕ
unfolding is_digit
digits_value acc [] = acc
digits_value acc (c ∷ s) =
    let rest = digits_value (acc * 10 + (c - 48)) s in if is_digit c then rest else acc

unfoldable pub signed_value : Bytes → ℤ
unfolding digits_value
signed_value [] = pos 0
signed_value (c ∷ s) =
    if c == b'-'
    then neg (digits_value 0 s)
    else pos (if c == b'+' then digits_value 0 s else digits_value 0 (c ∷ s))

-- The number that atoi reads, of any size.
unfoldable pub atoi : Bytes → ℤ
unfolding skip_space signed_value
atoi s = signed_value (skip_space s)

-- A number as strtol returns it: the next `long` where it is none.
abbrev pub to_long : ℤ → ℤ
to_long (pos n) = pos (if ltb n (2 ^ 63) then n else 2 ^ 63 - 1)
to_long (negsuc n) = negsuc (if ltb n (2 ^ 63) then n else 2 ^ 63 - 1)

-- 32 bits as an `int`.
abbrev pub int_of_bits : ℕ → ℤ
int_of_bits w = if ltb w (2 ^ 31) then pos w else negsuc (2 ^ 32 - 1 - w)

-- The `int` that a `long` is cut to: its low 32 bits.
abbrev pub to_int : ℤ → ℤ
to_int (pos n) = int_of_bits (n % 2 ^ 32)
to_int (negsuc n) = int_of_bits (2 ^ 32 - 1 - n % 2 ^ 32)

-- atoi as `(int) strtol(s, NULL, 10)`. The C standard leaves it open for a number that no `int` holds.
unfoldable pub atoi_int : Bytes → ℤ
unfolding atoi
atoi_int s = to_int (to_long (atoi s))

-- strcmp(s, t) == 0.
unfoldable pub bytes_eq : Bytes → Bytes → Bool
bytes_eq [] [] = true
bytes_eq [] (d ∷ t) = false
bytes_eq (c ∷ s) [] = false
bytes_eq (c ∷ s) (d ∷ t) = (c == d) && bytes_eq s t

pub Run-cases {ℓ} :
    {A : Type ℓ} (r : Run A) → ((e : Fault) × (r ≡ fault e)) ⊎ ((a : A) × (r ≡ ok a))
Run-cases (ok a) = inr (a, refl)
Run-cases (fault e) = inl (e, refl)
