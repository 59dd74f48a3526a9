-- ===== src/Xdebug/Str/Format.antt =====
-- xdebug_sprintf: printing into memory that grows until the text fits. vsnprintf is a parameter.
use saphire.Prelude.{
  ℕ, zero, suc, ◌+◌, ◌*◌, ◌^◌, ◌<◌, ◌≤◌, ◌≡◌, refl, ap, ◌∙◌, ◌⊎◌, inl, inr, true, false, Option,
  none, some, arith, ltb, Bool-cases, if◌then◌else◌,
}
use native.Mathlib.Nat.{pow-suc}
use saphire.Clib.{Run, ok, fault, int_overflow, out_of_fuel, ◌>>=◌}

-- An `int` that is not negative, as long as it does not overflow.
abbrev pub as_int : ℕ → Run ℕ
as_int size = if ltb size (2 ^ 31) then ok size else fault int_overflow

-- `vsnprintf(new_str, size, fmt, args)`: the number of bytes that the whole text has, or `none` for a
-- negative result. The round's memory has `size` bytes.
module _ (vsnprintf : ℕ → Option ℕ) where
  -- The loop, with the rounds it may make: the size of the memory that is returned, and the number
  -- that vsnprintf returned for it.
  unfoldable pub sprintf_loop : ℕ → ℕ → Run (ℕ × ℕ)
  sprintf_loop zero size = fault out_of_fuel
  sprintf_loop (suc fuel) size = elim (vsnprintf size) [
    | none ↦ (as_int (size * 2) >>= (λ doubled. sprintf_loop fuel doubled))
    | some n ↦
        let more = as_int (n + 1) >>= (λ enough. sprintf_loop fuel enough) in
        if ltb n size then ok (size, n) else more
  ]

  unfoldable pub xdebug_sprintf : ℕ → Run (ℕ × ℕ)
  unfolding sprintf_loop
  xdebug_sprintf fuel = sprintf_loop fuel 1

  -- A round whose memory the text fits.
  round-fits :
      (fuel size n : ℕ)
      → vsnprintf size ≡ some n
      → n < size
      → sprintf_loop (suc fuel) size ≡ ok (size, n)
  unfolding sprintf_loop
  round-fits fuel size n e small =
      let fits : ltb n size ≡ true = ground arith in rw (sprintf_loop, e, fits) refl

  -- A round at whose size vsnprintf returns the length of a longer text.
  round-grows :
      (fuel size n : ℕ)
      → vsnprintf size ≡ some n
      → size ≤ n
      → n + 1 < 2 ^ 31
      → sprintf_loop (suc fuel) size ≡ sprintf_loop fuel (n + 1)
  unfolding sprintf_loop
  round-grows fuel size n e large int =
      let full : ltb n size ≡ false = ground arith in
      let held : ltb (n + 1) (2 ^ 31) ≡ true = ground arith in rw (sprintf_loop, e, full, held) refl

  -- A round at whose size vsnprintf fails.
  round-doubles :
      (fuel size : ℕ)
      → vsnprintf size ≡ none
      → size * 2 < 2 ^ 31
      → sprintf_loop (suc fuel) size ≡ sprintf_loop fuel (size * 2)
  unfolding sprintf_loop
  round-doubles fuel size e int =
      let held : ltb (size * 2) (2 ^ 31) ≡ true = ground arith in rw (sprintf_loop, e, held) refl

  -- vsnprintf returns the length of the text, or, where the text and a NUL do not fit, may fail.
  abbrev pub Prints : ℕ → Type 0
  Prints n = (size : ℕ) → (vsnprintf size ≡ some n) ⊎ ((vsnprintf size ≡ none) × (size ≤ n))

  grown : (fuel n : ℕ) → Prints n → sprintf_loop (suc fuel) (n + 1) ≡ ok (n + 1, n)
  grown fuel n prints = elim (prints (n + 1)) [
    | inl e ↦ round-fits fuel (n + 1) n e (omega arith)
    | inr (e, small) ↦ absurd (omega arith)
  ]

  sprintf_loop-Prints :
      (k n size : ℕ)
      → Prints n
      → n < 2 ^ 30
      → n < size * 2 ^ k
      → (m : ℕ) × (sprintf_loop (suc k) size ≡ ok (m, n)) × (n < m)
  sprintf_loop-Prints zero n size prints int enough = elim (prints size) [
    | inl e ↦ (size, round-fits zero size n e (omega arith), omega arith)
    | inr (e, small) ↦ absurd (omega arith)
  ]
  sprintf_loop-Prints (suc k) n size prints int enough =
      let less : n < size * 2 * 2 ^ k = omega (arith, ap (λ (p : ℕ). size * p) (pow-suc 2 k)) in
      elim (prints size) [
        | inl e ↦ elim (Bool-cases (ltb n size)) [
          | inl fits ↦ let h : n < size = ground arith in (size, round-fits (suc k) size n e h, h)
          | inr full ↦ (
            n + 1,
            round-grows (suc k) size n e (ground arith) (omega arith) ∙ grown k n prints,
            omega arith,
          )
        ]
        | inr (e, small) ↦
            let (m, run, fits) = sprintf_loop-Prints k n (size * 2) prints int less in
            (m, round-doubles (suc k) size e (omega arith) ∙ run, fits)
      ]

  -- For a text of fewer than 2 ^ 30 bytes and a vsnprintf that returns its length, but may fail where the
  -- text and a NUL do not fit the memory, as older libraries do, xdebug_sprintf ends within 31
  -- rounds, without an overflow of its `int size`, with memory that the text and a NUL fit.
  pub xdebug_sprintf-fits :
      (n : ℕ) → Prints n → n < 2 ^ 30 → (m : ℕ) × (xdebug_sprintf 31 ≡ ok (m, n)) × (n < m)
  unfolding xdebug_sprintf
  xdebug_sprintf-fits n prints int = sprintf_loop-Prints 30 n 1 prints int (omega arith)
