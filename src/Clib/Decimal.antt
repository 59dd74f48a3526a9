-- ===== src/Clib/Decimal.antt =====
-- printf's `%d` of numbers that are not negative, and how atoi and strchr read its digits.
use saphire.Prelude.{
  ℕ, zero, suc, ◌+◌, ◌*◌, ◌/◌, ◌%◌, ◌^◌, ◌<◌, ◌≤◌, ◌≡◌, refl, ◌∙◌, ap, inl, inr, true, false, ◌∷◌,
  ◌++◌, arith, length, ltb, Bool-cases, if◌then◌else◌,
}
use native.Mathlib.Nat.{pow-suc}
use saphire.Prelude.Int.{pos}
use saphire.Clib.{Bytes, strchr_cut, is_digit, digits_value, atoi, atoi_int}

-- The digits of a number in front of a text, the first digit not 0 but for 0 itself.
decimal_loop : ℕ → ℕ → Bytes → Bytes
decimal_loop zero n acc = acc
decimal_loop (suc fuel) n acc =
    let rest = decimal_loop fuel (n / 10) ((48 + n % 10) ∷ acc) in
    if ltb n 10 then (48 + n) ∷ acc else rest

-- `%d` of a number that is not negative, with what is printed after it.
unfoldable pub decimal : ℕ → Bytes → Bytes
unfolding decimal_loop
decimal n acc = decimal_loop (suc n) n acc

-- One digit in front of a text.
digits_value-digit :
    (a n : ℕ) (acc : Bytes)
    → n < 10
    → digits_value a ((48 + n) ∷ acc) ≡ digits_value (a * 10 + n) acc
unfolding digits_value
digits_value-digit a n acc h =
    let digit : is_digit (48 + n) ≡ true = ground arith in
    rw digit (ap (λ k. digits_value (a * 10 + k) acc) (omega arith))

digits_value-decimal_loop :
    (fuel n : ℕ) (acc : Bytes)
    → n < fuel
    → digits_value 0 (decimal_loop fuel n acc) ≡ digits_value n acc
unfolding decimal_loop
digits_value-decimal_loop zero n acc h = absurd (omega arith)
digits_value-decimal_loop (suc fuel) n acc h = elim (Bool-cases (ltb n 10)) [
  | inl small ↦
      rw small
        (digits_value-digit 0 n acc (ground arith) ∙ ap (λ k. digits_value k acc) (omega arith))
  | inr large ↦ rw large (
      digits_value-decimal_loop fuel (n / 10) ((48 + n % 10) ∷ acc) (ground arith)
      ∙ digits_value-digit (n / 10) (n % 10) acc (omega arith)
      ∙ ap (λ k. digits_value k acc) (omega arith))
]

-- A byte that is no digit does not stand among the digits.
strchr_cut-decimal_loop :
    (d fuel n : ℕ) (acc : Bytes)
    → is_digit d ≡ false
    → strchr_cut d (decimal_loop fuel n acc)
      ≡ (decimal_loop fuel n (strchr_cut d acc).0, (strchr_cut d acc).1)
unfolding decimal_loop strchr_cut is_digit
strchr_cut-decimal_loop d zero n acc h = refl
strchr_cut-decimal_loop d (suc fuel) n acc h =
    ground (arith, strchr_cut-decimal_loop d fuel (n / 10) ((48 + n % 10) ∷ acc) h)

pub strchr_cut-decimal :
    (d n : ℕ) (acc : Bytes)
    → is_digit d ≡ false
    → strchr_cut d (decimal n acc) ≡ (decimal n (strchr_cut d acc).0, (strchr_cut d acc).1)
unfolding decimal
strchr_cut-decimal d n acc h = strchr_cut-decimal_loop d (suc n) n acc h

decimal_loop-append :
    (fuel n : ℕ) (acc rest : Bytes)
    → decimal_loop fuel n (acc ++ rest) ≡ decimal_loop fuel n acc ++ rest
unfolding decimal_loop
decimal_loop-append zero n acc rest = refl
decimal_loop-append (suc fuel) n acc rest =
    ground (arith, decimal_loop-append fuel (n / 10) ((48 + n % 10) ∷ acc) rest)

pub decimal-append : (n : ℕ) (acc rest : Bytes) → decimal n (acc ++ rest) ≡ decimal n acc ++ rest
unfolding decimal
decimal-append n acc rest = decimal_loop-append (suc n) n acc rest

length-decimal_loop :
    (fuel n k : ℕ) (acc : Bytes)
    → n < 10 ^ suc k
    → length (decimal_loop fuel n acc) ≤ suc k + length acc
unfolding decimal_loop
length-decimal_loop zero n k acc h = omega arith
length-decimal_loop (suc fuel) n zero acc h =
    let small : ltb n 10 ≡ true = ground arith in rw small (omega arith)
length-decimal_loop (suc fuel) n (suc k) acc h =
    let less : n / 10 < 10 ^ suc k = omega (arith, pow-suc 10 (suc k)) in
    ground (arith, length-decimal_loop fuel (n / 10) k ((48 + n % 10) ∷ acc) less)

-- The digits of a number below a power of ten.
pub length-decimal :
    (n k : ℕ) (acc : Bytes) → n < 10 ^ suc k → length (decimal n acc) ≤ suc k + length acc
unfolding decimal
length-decimal n k acc h = length-decimal_loop (suc n) n k acc h

-- atoi reads a text that begins with a digit as its digits.
StartsDigit : Bytes → Type 0
StartsDigit s = (c : ℕ) × (t : Bytes) × (s ≡ c ∷ t) × (is_digit c ≡ true)

decimal_loop-StartsDigit :
    (fuel n : ℕ) (acc : Bytes) → n < fuel → StartsDigit (decimal_loop fuel n acc)
unfolding decimal_loop StartsDigit is_digit
decimal_loop-StartsDigit zero n acc h = absurd (omega arith)
decimal_loop-StartsDigit (suc fuel) n acc h = elim (Bool-cases (ltb n 10)) [
  | inl small ↦ (48 + n, acc, rw small, ground arith)
  | inr large ↦
      rw large (decimal_loop-StartsDigit fuel (n / 10) ((48 + n % 10) ∷ acc) (ground arith))
]

atoi-digit : (c : ℕ) (t : Bytes) → is_digit c ≡ true → atoi (c ∷ t) ≡ pos (digits_value 0 (c ∷ t))
unfolding atoi digits_value
atoi-digit c t h = ground arith

atoi-StartsDigit : (s : Bytes) → StartsDigit s → atoi s ≡ pos (digits_value 0 s)
unfolding StartsDigit
atoi-StartsDigit s (c, t, e, digit) = rw e (atoi-digit c t digit)

-- A number that an `int` holds is what atoi returns.
pub atoi_int-atoi : (s : Bytes) (n : ℕ) → atoi s ≡ pos n → n < 2 ^ 31 → atoi_int s ≡ pos n
unfolding atoi_int
atoi_int-atoi s n h small =
    let long : ltb n (2 ^ 63) ≡ true = ground arith in
    let low : n % 2 ^ 32 ≡ n = omega arith in
    let int : ltb n (2 ^ 31) ≡ true = ground arith in rw (atoi_int, h, long, low, int) refl

pub atoi-decimal : (n : ℕ) (acc : Bytes) → digits_value n acc ≡ n → atoi (decimal n acc) ≡ pos n
unfolding decimal
atoi-decimal n acc h =
    atoi-StartsDigit _ (decimal_loop-StartsDigit (suc n) n acc (omega arith))
    ∙ ap pos (digits_value-decimal_loop (suc n) n acc (omega arith) ∙ h)
