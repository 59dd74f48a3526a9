-- ===== src/Xdebug/Compat.antt =====
-- stage1/interpreter-tracing/TE_xdebug/xdebug_compat.c: xdebug_stripcslashes.
pub mod Escaped
use saphire.Prelude.{
  ℕ, zero, suc, ◌+◌, ◌-◌, ◌*◌, ◌%◌, Bool, true, false, ◌&&◌, ◌||◌, Option, none, some, List, [],
  ◌∷◌, leb, ◌==◌, if◌then◌else◌, length,
}
use saphire.Clib.{Bytes, is_digit}
use saphire.Clib.Ctype.{is_upper, tolower, is_xdigit}

-- The value of one digit of strtol, and of digits of a base.
unfoldable pub digit_of : ℕ → ℕ
unfolding is_digit tolower
digit_of c = if is_digit c then c - b'0' else (tolower c + 10) - b'a'

unfoldable pub strtol : ℕ → ℕ → Bytes → ℕ
unfolding digit_of
strtol base acc [] = acc
strtol base acc (c ∷ s) = strtol base (acc * base + digit_of c) s

-- A byte that is written, how many bytes of the source behind the first are used for it, and what
-- nlen is reduced by.
pub record Char : Type 0 where
  pub byte : ℕ
  pub used : ℕ
  pub less : ℕ

abbrev simple : ℕ → Char
simple c = record { byte = c; used = 1; less = 1 }

-- At most `n` octal digits: the while loop.
unfoldable pub octal_digits : ℕ → Bytes → Bytes
octal_digits zero s = []
octal_digits (suc n) [] = []
octal_digits (suc n) (c ∷ s) =
    let rest = octal_digits n s in if leb b'0' c && leb c b'7' then c ∷ rest else []

-- The test `if (i)` on the digits.
unfoldable pub octal_char : ℕ → Bytes → Char
unfolding strtol
octal_char c [] = simple c
octal_char c (d ∷ ds) = record {
  byte = strtol 8 0 (d ∷ ds) % 256;
  used = length (d ∷ ds);
  less = length (d ∷ ds);
}

-- The default case, on what stands behind the backslash.
unfoldable pub other_char : ℕ → Bytes → Char
unfolding octal_digits octal_char
other_char c s = octal_char c (octal_digits 3 (c ∷ s))

-- The case 'x', on what stands behind the x.
unfoldable pub hex_char : Bytes → Char
unfolding is_xdigit strtol other_char
hex_char [] = other_char b'x' []
hex_char (d ∷ []) =
    if is_xdigit d
    then record { byte = strtol 16 0 (d ∷ []); used = 2; less = 2 }
    else other_char b'x' (d ∷ [])
hex_char (d ∷ e ∷ s) =
    if is_xdigit d
    then (if is_xdigit e
        then record { byte = strtol 16 0 (d ∷ e ∷ []); used = 3; less = 3 }
        else record { byte = strtol 16 0 (d ∷ []); used = 2; less = 2 })
    else other_char b'x' (d ∷ e ∷ s)

-- The switch, on what stands behind the backslash.
unfoldable pub escaped_char : ℕ → Bytes → Char
unfolding hex_char
escaped_char c s =
    if c == b'n'
    then simple 10
    else if c == b'r'
    then simple 13
    else if c == b'a'
    then simple 7
    else if c == b't'
    then simple 9
    else if c == b'v'
    then simple 11
    else if c == b'b'
    then simple 8
    else if c == b'f'
    then simple 12
    else if c == b'\\'
    then simple b'\\'
    else if c == b'x'
    then hex_char s
    else other_char c s

-- The byte that the source's next bytes stand for.
unfoldable pub source_char : ℕ → Bytes → Char
unfolding escaped_char
source_char c [] = record { byte = c; used = 0; less = 0 }
source_char c (d ∷ s) =
    if c == b'\\' then escaped_char d s else record { byte = c; used = 0; less = 0 }

-- The for loop, which passes over as many bytes as the last byte that was written has used.
unfoldable pub strip_loop : ℕ → ℕ → Bytes → Bytes × ℕ
unfolding source_char
strip_loop used nlen [] = ([], nlen)
strip_loop (suc used) nlen (c ∷ s) = strip_loop used nlen s
strip_loop zero nlen (c ∷ s) =
    let char = source_char c s in
    let rest = strip_loop char.used (nlen - char.less) s in (char.byte ∷ rest.0, rest.1)

-- xdebug_stripcslashes: the bytes written, and the new length.
unfoldable pub stripcslashes : Bytes → Bytes × ℕ
unfolding strip_loop
stripcslashes str = strip_loop 0 (length str) str
