-- ===== src/Xdebug/Useful/Url.antt =====
-- usefulstuff.c: the encoding of URLs, and the conversion between paths and URLs.
pub mod Coding
pub mod Paths
use saphire.Prelude.{
  ℕ, ◌+◌, ◌-◌, ◌*◌, ◌/◌, ◌%◌, Bool, true, false, not, ◌&&◌, ◌||◌, Option, none, some, List, [], ◌∷◌,
  ◌++◌, map, ltb, leb, ◌==◌, if◌then◌else◌, get_elem?, get_or, length, drop,
}
use saphire.Clib.{Bytes, codes, Run, ok, fault, null_pointer, out_of_bounds, is_digit, ◌>>=◌}
use saphire.Clib.Ctype.{is_upper, tolower, is_xdigit, starts_with, strstr}

-- The value of one digit in xdebug_htoi.
unfoldable pub hex_value : ℕ → ℕ
unfolding is_digit is_upper tolower
hex_value s =
    let c = if is_upper s then tolower s else s in if is_digit c then c - b'0' else (c + 10) - b'a'

-- xdebug_htoi.
unfoldable pub htoi : ℕ → ℕ → ℕ
unfolding hex_value
htoi s₀ s₁ = hex_value s₀ * 16 + hex_value s₁

-- xdebug_raw_url_decode; it writes in place, never ahead of where it reads.
unfoldable pub raw_url_decode : Bytes → Bytes
unfolding is_xdigit htoi
raw_url_decode [] = []
raw_url_decode (c ∷ []) = c ∷ []
raw_url_decode (c ∷ d ∷ []) = c ∷ d ∷ []
raw_url_decode (c ∷ d ∷ e ∷ str) =
    let decoded = htoi d e ∷ raw_url_decode str in
    let copied = c ∷ raw_url_decode (d ∷ e ∷ str) in
    if (c == b'%') && is_xdigit d && is_xdigit e then decoded else copied

abbrev pub hexchars : Bytes
hexchars =
    b'0' ∷ b'1' ∷ b'2' ∷ b'3' ∷ b'4' ∷ b'5' ∷ b'6' ∷ b'7' ∷ b'8' ∷ b'9' ∷ b'A' ∷ b'B' ∷ b'C' ∷ b'D'
    ∷ b'E' ∷ b'F' ∷ []

-- The test of xdebug_raw_url_encode.
unfoldable pub is_encoded : Bool → ℕ → Bool
is_encoded skip_slash c =
    (ltb c b'0' && not (c == b'-') && not (c == b'.') && (not (c == b'/') || not skip_slash))
    || (ltb c b'A' && ltb b'9' c && not (c == b':'))
    || (ltb b'Z' c && ltb c b'a' && not (c == b'_') && (not (c == b'\\') || not skip_slash))
    || ltb b'z' c

-- What one byte becomes.
unfoldable pub encode_byte : Bool → ℕ → Bytes
unfolding is_encoded
encode_byte skip_slash c =
    if is_encoded skip_slash c
    then b'%' ∷ get_or hexchars (c / 16) 0 ∷ get_or hexchars (c % 16) 0 ∷ []
    else c ∷ []

-- xdebug_raw_url_encode.
unfoldable pub raw_url_encode : Bool → Bytes → Bytes
unfolding encode_byte
raw_url_encode skip_slash [] = []
raw_url_encode skip_slash (c ∷ s) = encode_byte skip_slash c ++ raw_url_encode skip_slash s

-- The text that starts at an address, up to its NUL.
unfoldable pub c_str : Bytes → Bytes
c_str [] = []
c_str (c ∷ memory) = let rest = c_str memory in if c == 0 then [] else c ∷ rest

-- A byte of memory.
unfoldable pub byte_at : Bytes → ℕ → Run ℕ
byte_at memory i = elim (get_elem? memory i) [ none ↦ fault out_of_bounds | some c ↦ ok c ]

-- The copy of a text after raw_url_decode has written the decoded text and its NUL over it.
unfoldable pub decoded_copy : Bytes → Bytes
unfolding raw_url_decode
decoded_copy fileurl =
    let decoded = raw_url_decode fileurl in
    decoded ++ 0 ∷ drop (length decoded + 1) (fileurl ++ 0 ∷ [])

-- `if (fp[0] == '/' && fp[2] == ':') fp++`, and the text at fp.
unfoldable pub skip_drive : Bytes → Run Bytes
unfolding c_str byte_at
skip_drive fp = do
  c₀ ← byte_at fp 0
  drive ← if c₀ == b'/' then (do c₂ ← byte_at fp 2; ok (c₂ == b':')) else ok false
  ok (c_str (if drive then drop 1 fp else fp))

-- xdebug_path_from_url, but on Windows.
unfoldable pub path_from_url : Bytes → Run Bytes
unfolding decoded_copy skip_drive c_str strstr
path_from_url fileurl =
    let dfp = decoded_copy fileurl in
    elim (strstr (c_str dfp) (codes "file://")) [
      | none ↦ ok fileurl
      | some tmp ↦ skip_drive (drop (tmp + 7) dfp)
    ]

-- `fileurl[0] != '/' && fileurl[0] != '\\' && fileurl[1] != ':'`.
unfoldable pub is_relative : Bytes → Run Bool
unfolding byte_at
is_relative memory = do
  c₀ ← byte_at memory 0
  if (c₀ == b'/') || (c₀ == b'\\')
      then ok false
      else (do c₁ ← byte_at memory 1; ok (not (c₁ == b':')))

-- What precedes the encoded text of a path that is not relative.
unfoldable pub url_prefix : ℕ → ℕ → Bytes
url_prefix c₀ c₁ =
    if (c₁ == b'/') || (c₁ == b'\\')
    then codes "file:"
    else if (c₀ == b'/') || (c₀ == b'\\')
    then codes "file://"
    else if c₁ == b':'
    then codes "file:///"
    else []

-- `if (tmp[i] == '\\') tmp[i] = '/'`.
abbrev pub to_slash : ℕ → ℕ
to_slash c = if c == b'\\' then b'/' else c

-- xdebug_path_to_url before backslashes are converted. `virtual_file` is the path that VCWD_GETCWD and
-- virtual_file_ex make of a relative one; if they fail, strlen gets a null pointer.
unfoldable pub raw_path_to_url : (Bytes → Option Bytes) → Bytes → Run Bytes
unfolding raw_url_encode starts_with byte_at is_relative url_prefix
raw_path_to_url virtual_file fileurl =
    let memory = fileurl ++ 0 ∷ [] in
    if starts_with (codes "phar://") fileurl then ok fileurl else (do
      relative ← is_relative memory
      if relative
          then elim (virtual_file fileurl) [
            | none ↦ fault null_pointer
            | some s ↦ ok (codes "file://" ++ s)
          ]
          else (do
            c₀ ← byte_at memory 0
            c₁ ← byte_at memory 1
            ok (url_prefix c₀ c₁ ++ raw_url_encode true fileurl)))

-- xdebug_path_to_url.
unfoldable pub path_to_url : (Bytes → Option Bytes) → Bytes → Run Bytes
unfolding raw_path_to_url
path_to_url virtual_file fileurl = do
  tmp ← raw_path_to_url virtual_file fileurl
  ok (map to_slash tmp)
