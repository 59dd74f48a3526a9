-- ===== src/Xdebug/Compat/Escaped.antt =====
-- The escapes are undone, and the new length is that of what was written.
use saphire.Prelude.{
  ℕ, zero, suc, ◌+◌, ◌-◌, ◌≤◌, ◌≡◌, refl, ap, ◌∙◌, inl, inr, Bool, true, false, ◌||◌, [], ◌∷◌, leb,
  ◌&&◌, arith, length, ◌==◌, ==_iff, if◌then◌else◌, Bool-cases,
}
use saphire.Clib.{Bytes}
use saphire.Clib.Ctype.{is_xdigit}
use saphire.Xdebug.Compat.{
  Char, octal_digits, octal_char, other_char, hex_char, escaped_char, source_char, strip_loop,
  stripcslashes,
}

-- A text with a backslash in front of each backslash and each double quote.
unfoldable pub escaped : Bytes → Bytes
escaped [] = []
escaped (c ∷ s) =
    let rest = escaped s in if (c == b'\\') || (c == b'"') then b'\\' ∷ c ∷ rest else c ∷ rest

strip_loop-plain :
    (nlen c : ℕ) (s : Bytes)
    → (c == b'\\') ≡ false
    → strip_loop 0 nlen (c ∷ s) ≡ (c ∷ (strip_loop 0 (nlen - 0) s).0, (strip_loop 0 (nlen - 0) s).1)
unfolding strip_loop source_char
strip_loop-plain nlen c [] h = refl
strip_loop-plain nlen c (d ∷ s) h = rw h refl

strip_loop-special :
    (nlen c : ℕ) (s : Bytes)
    → ((c == b'\\') || (c == b'"')) ≡ true
    → strip_loop 0 nlen (b'\\' ∷ c ∷ s)
      ≡ (c ∷ (strip_loop 0 (nlen - 1) s).0, (strip_loop 0 (nlen - 1) s).1)
unfolding strip_loop source_char escaped_char other_char octal_digits
strip_loop-special nlen c s h = elim (Bool-cases (c == b'\\')) [
  | inl back ↦ let same : c ≡ b'\\' = (==_iff c b'\\').0 back in rw same refl
  | inr not_back ↦ let same : c ≡ b'"' = (==_iff c b'"').0 (rw not_back at h) in rw same refl
]

pub escaped-special :
    (c : ℕ) (s : Bytes)
    → ((c == b'\\') || (c == b'"')) ≡ true
    → escaped (c ∷ s) ≡ b'\\' ∷ c ∷ escaped s
unfolding escaped
escaped-special c s h = rw h refl

pub escaped-plain :
    (c : ℕ) (s : Bytes) → ((c == b'\\') || (c == b'"')) ≡ false → escaped (c ∷ s) ≡ c ∷ escaped s
unfolding escaped
escaped-plain c s h = rw h refl

abbrev behind : ℕ → Bytes × ℕ → Bytes × ℕ
behind c r = (c ∷ r.0, r.1)

or_left : (a b : Bool) → (a || b) ≡ false → a ≡ false
or_left false b h = refl
or_left true b h = h

abbrev empty_with : ℕ → Bytes × ℕ
empty_with m = ([], m)

strip_loop-nothing :
    (n nlen : ℕ)
    → nlen ≡ length (escaped []) + n
    → strip_loop 0 nlen (escaped []) ≡ ([], length {A = ℕ} [] + n)
unfolding escaped strip_loop
strip_loop-nothing n nlen h = ap empty_with h

-- What the loop gives for an escaped text, with `n` more than its length to begin with.
strip_loop-escaped :
    (n nlen : ℕ) (s : Bytes)
    → nlen ≡ length (escaped s) + n
    → strip_loop 0 nlen (escaped s) ≡ (s, length s + n)
strip_loop-escaped n nlen [] h = strip_loop-nothing n nlen h
strip_loop-escaped n nlen (c ∷ s) h = elim (Bool-cases ((c == b'\\') || (c == b'"'))) [
  | inl special ↦
      let text = escaped-special c s special in
      let size : nlen ≡ suc (suc (length (escaped s))) + n = rw text at h in
      let left : nlen - 1 ≡ length (escaped s) + suc n = omega (arith, size) in
      let count : length s + suc n ≡ suc (length s) + n = omega arith in
      ap (strip_loop 0 nlen) text
      ∙ strip_loop-special nlen c (escaped s) special
      ∙ ap (behind c) (strip_loop-escaped (suc n) (nlen - 1) s left)
      ∙ ap (λ m. behind c (s, m)) count
  | inr plain ↦
      let text = escaped-plain c s plain in
      let size : nlen ≡ suc (length (escaped s)) + n = rw text at h in
      let left : nlen - 0 ≡ length (escaped s) + suc n = omega (arith, size) in
      let count : length s + suc n ≡ suc (length s) + n = omega arith in
      ap (strip_loop 0 nlen) text
      ∙ strip_loop-plain nlen c (escaped s) (or_left (c == b'\\') (c == b'"') plain)
      ∙ ap (behind c) (strip_loop-escaped (suc n) (nlen - 0) s left)
      ∙ ap (λ m. behind c (s, m)) count
]

-- What is used of a source that has `n` bytes more.
record Uses (n : ℕ) (char : Char) : Type 0 where
  same : char.used ≡ char.less
  within : char.used ≤ n

length-octal_digits : (n : ℕ) (s : Bytes) → length (octal_digits n s) ≤ length s
unfolding octal_digits
length-octal_digits zero s = omega arith
length-octal_digits (suc n) [] = omega arith
length-octal_digits (suc n) (c ∷ s) =
    let rest = length-octal_digits n s in
    elim (Bool-cases (leb b'0' c && leb c b'7')) [
      | inl octal ↦ rw octal (omega (arith, rest))
      | inr other ↦ rw other (omega arith)
    ]

octal_char-Uses : (c n : ℕ) (ds : Bytes) → length ds ≤ suc n → Uses (suc n) (octal_char c ds)
unfolding octal_char
octal_char-Uses c n [] h = record { same = refl; within = omega arith }
octal_char-Uses c n (d ∷ ds) h = record { same = refl; within = h }

other_char-Uses : (c : ℕ) (s : Bytes) → Uses (suc (length s)) (other_char c s)
unfolding other_char
other_char-Uses c s =
    octal_char-Uses c (length s) (octal_digits 3 (c ∷ s)) (length-octal_digits 3 (c ∷ s))

if-Uses : (n : ℕ) (b : Bool) (p q : Char) → Uses n p → Uses n q → Uses n (if b then p else q)
if-Uses n true p q u v = u
if-Uses n false p q u v = v

taken : (n k : ℕ) (byte : ℕ) → k ≤ n → Uses n (record { byte = byte; used = k; less = k })
taken n k byte h = record { same = refl; within = h }

hex_char-Uses : (s : Bytes) → Uses (suc (length s)) (hex_char s)
unfolding hex_char
hex_char-Uses [] = other_char-Uses b'x' []
hex_char-Uses (d ∷ []) =
    if-Uses 2 (is_xdigit d) _ _ (taken 2 2 _ (omega arith)) (other_char-Uses b'x' (d ∷ []))
hex_char-Uses (d ∷ e ∷ s) =
    let n : ℕ = suc (length (d ∷ e ∷ s)) in
    if-Uses n (is_xdigit d) _ _
      (if-Uses n (is_xdigit e) _ _ (taken n 3 _ (omega arith)) (taken n 2 _ (omega arith)))
      (other_char-Uses b'x' (d ∷ e ∷ s))

escaped_char-Uses : (c : ℕ) (s : Bytes) → Uses (suc (length s)) (escaped_char c s)
unfolding escaped_char
escaped_char-Uses c s =
    let n : ℕ = suc (length s) in
    let one : (k : ℕ) → Uses n (record { byte = k; used = 1; less = 1 }) =
      (λ k. taken n 1 k (omega arith)) in
    if-Uses n (c == b'n') _ _ (one 10) (
      if-Uses n (c == b'r') _ _ (one 13) (
        if-Uses n (c == b'a') _ _ (one 7) (
          if-Uses n (c == b't') _ _ (one 9) (
            if-Uses n (c == b'v') _ _ (one 11) (
              if-Uses n (c == b'b') _ _ (one 8) (
                if-Uses n (c == b'f') _ _ (one 12) (
                  if-Uses n (c == b'\\') _ _ (one b'\\')
                    (if-Uses n (c == b'x') _ _ (hex_char-Uses s) (other_char-Uses c s)))))))))

source_char-Uses : (c : ℕ) (s : Bytes) → Uses (length s) (source_char c s)
unfolding source_char
source_char-Uses c [] = taken 0 0 c (omega arith)
source_char-Uses c (d ∷ s) =
    if-Uses (suc (length s)) (c == b'\\') _ _ (escaped_char-Uses d s)
      (taken (suc (length s)) 0 c (omega arith))

-- The loop's length is that of its bytes, `n` more where nlen begins with `n` more, and it writes no
-- more bytes than it passes.
strip_loop-length :
    (n used nlen : ℕ) (s : Bytes)
    → used ≤ length s
    → nlen ≡ (length s - used) + n
    → ((strip_loop used nlen s).1 ≡ length (strip_loop used nlen s).0 + n)
      × (length (strip_loop used nlen s).0 ≤ length s)
unfolding strip_loop
strip_loop-length n used nlen [] h k = (omega (arith, k), omega arith)
strip_loop-length n (suc used) nlen (c ∷ s) h k =
    let (count, bound) = strip_loop-length n used nlen s (omega (arith, h)) (omega (arith, h, k)) in
    (count, omega (arith, bound))
strip_loop-length n zero nlen (c ∷ s) h k =
    let char = source_char c s in
    let uses = source_char-Uses c s in
    let left : nlen - char.less ≡ (length s - char.used) + suc n =
      omega (arith, k, uses.same, uses.within) in
    let (count, bound) =
      strip_loop-length (suc n) char.used (nlen - char.less) s uses.within left in
    (omega (arith, count), omega (arith, bound))

-- xdebug_stripcslashes writes no more bytes than it was given, and the length it stores is the number
-- of those it wrote, for any text; and of a text that has a backslash in front of each backslash and
-- each double quote it makes the text without them.
pub stripcslashes-escaped :
    (str s : Bytes)
    → ((stripcslashes str).1 ≡ length (stripcslashes str).0)
      × (length (stripcslashes str).0 ≤ length str)
      × (stripcslashes (escaped s) ≡ (s, length s))
unfolding stripcslashes
stripcslashes-escaped str s =
    let all : length str ≡ (length str - 0) + 0 = omega arith in
    let (count, bound) = strip_loop-length 0 0 (length str) str (omega arith) all in
    let size : length (escaped s) ≡ length (escaped s) + 0 = omega arith in
    let none_left : length s + 0 ≡ length s = omega arith in
    (
      omega (arith, count),
      bound,
      strip_loop-escaped 0 (length (escaped s)) s size ∙ ap (λ m. (s, m)) none_left,
    )
