-- ===== src/Xdebug/Useful/Url/Coding.antt =====
-- Decoding undoes encoding.
use saphire.Prelude.{
  ℕ, ◌+◌, ◌*◌, ◌/◌, ◌%◌, ◌<◌, ◌≤◌, ◌≡◌, refl, sym, ap, ◌∙◌, inl, inr, Bool, true, false, ◌&&◌, [],
  ◌∷◌, ◌++◌, arith, length, length-append, get_or, ◌==◌, ==_iff, Bool-cases, check_from,
  check_from_sound,
}
use mathlib.Core.List.{append_assoc, append-nil}
use saphire.Clib.{Bytes, is_digit}
use saphire.Clib.Ctype.{is_xdigit}
use saphire.Xdebug.Useful.Url.{
  htoi, raw_url_decode, hexchars, is_encoded, encode_byte, raw_url_encode,
}

-- The bytes of a text.
abbrev pub AreBytes : Bytes → Type 0
AreBytes [] = Unit
AreBytes (c ∷ s) = (c < 256) × AreBytes s

pub raw_url_decode-plain :
    (c : ℕ) (t : Bytes) → (c == b'%') ≡ false → raw_url_decode (c ∷ t) ≡ c ∷ raw_url_decode t
unfolding raw_url_decode
raw_url_decode-plain c [] h = refl
raw_url_decode-plain c (d ∷ []) h = refl
raw_url_decode-plain c (d ∷ e ∷ t) h = rw h refl

and3 : (a b c : Bool) → (a && b && c) ≡ true → (a ≡ true) × (b ≡ true) × (c ≡ true)
and3 a b c h = (ground arith, ground arith, ground arith)

-- The two digits of a byte are digits, and stand for it.
reads_back : ℕ → Bool
reads_back c =
    is_xdigit (get_or hexchars (c / 16) 0)
    && is_xdigit (get_or hexchars (c % 16) 0)
    && (htoi (get_or hexchars (c / 16) 0) (get_or hexchars (c % 16) 0) == c)

reads_back_table : check_from reads_back 0 256 ≡ true
unfolding check_from reads_back htoi is_xdigit is_digit
reads_back_table = refl

raw_url_decode-hex :
    (d e : ℕ) (t : Bytes)
    → is_xdigit d ≡ true
    → is_xdigit e ≡ true
    → raw_url_decode (b'%' ∷ d ∷ e ∷ t) ≡ htoi d e ∷ raw_url_decode t
unfolding raw_url_decode
raw_url_decode-hex d e t p q = rw (p, q) refl

raw_url_decode-digits :
    (c : ℕ) (t : Bytes)
    → c < 256
    → raw_url_decode (b'%' ∷ get_or hexchars (c / 16) 0 ∷ get_or hexchars (c % 16) 0 ∷ t)
      ≡ c ∷ raw_url_decode t
unfolding reads_back
raw_url_decode-digits c t h =
    let table : reads_back c ≡ true =
      check_from_sound reads_back 256 0 c reads_back_table (omega arith) h in
    let d = get_or hexchars (c / 16) 0 in
    let e = get_or hexchars (c % 16) 0 in
    let (p, q, r) = and3 (is_xdigit d) (is_xdigit e) (htoi d e == c) table in
    raw_url_decode-hex d e t p q ∙ ap (λ b. b ∷ raw_url_decode t) ((==_iff (htoi d e) c).0 r)

not_percent : (skip : Bool) (c : ℕ) → is_encoded skip c ≡ false → (c == b'%') ≡ false
unfolding is_encoded
not_percent skip c h = ground arith

raw_url_decode-encode_byte :
    (skip : Bool) (c : ℕ) (t : Bytes)
    → c < 256
    → raw_url_decode (encode_byte skip c ++ t) ≡ c ∷ raw_url_decode t
unfolding encode_byte
raw_url_decode-encode_byte skip c t h = elim (Bool-cases (is_encoded skip c)) [
  | inl hidden ↦ rw hidden (raw_url_decode-digits c t h)
  | inr plain ↦ rw plain (raw_url_decode-plain c t (not_percent skip c plain))
]

pub raw_url_decode-append :
    (skip : Bool) (s t : Bytes)
    → AreBytes s
    → raw_url_decode (raw_url_encode skip s ++ t) ≡ s ++ raw_url_decode t
unfolding raw_url_encode
raw_url_decode-append skip [] t h = refl
raw_url_decode-append skip (c ∷ s) t (small, h) = rw append_assoc (
    raw_url_decode-encode_byte skip c (raw_url_encode skip s ++ t) small
    ∙ ap (λ u. c ∷ u) (raw_url_decode-append skip s t h))

length-encode_byte : (skip : Bool) (c : ℕ) → length (encode_byte skip c) ≤ 3
unfolding encode_byte
length-encode_byte skip c = elim (Bool-cases (is_encoded skip c)) [
  | inl hidden ↦ rw hidden (omega arith)
  | inr plain ↦ rw plain (omega arith)
]

length-raw_url_encode : (skip : Bool) (s : Bytes) → length (raw_url_encode skip s) ≤ 3 * length s
unfolding raw_url_encode
length-raw_url_encode skip [] = omega arith
length-raw_url_encode skip (c ∷ s) = omega (
  arith,
  length-append (encode_byte skip c) (raw_url_encode skip s),
  length-encode_byte skip c,
  length-raw_url_encode skip s,
)

-- xdebug_raw_url_decode undoes xdebug_raw_url_encode, with or without slashes encoded; and the encoded
-- text fits the memory that is made for it, three times the text's length and one for the NUL.
pub raw_url_decode-encode :
    (skip : Bool) (s : Bytes)
    → AreBytes s
    → (raw_url_decode (raw_url_encode skip s) ≡ s)
      × (length (raw_url_encode skip s) + 1 ≤ 3 * length s + 1)
raw_url_decode-encode skip s h = (
  ap raw_url_decode (sym (append-nil (raw_url_encode skip s)))
      ∙ raw_url_decode-append skip s [] h
      ∙ (unfold raw_url_decode in append-nil s),
  omega (arith, length-raw_url_encode skip s),
)
