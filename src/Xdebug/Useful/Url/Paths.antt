-- ===== src/Xdebug/Useful/Url/Paths.antt =====
-- The URL of an absolute path stands for that path.
use saphire.Prelude.{
  ℕ, ◌+◌, ◌<◌, ◌≡◌, refl, ap, ◌∙◌, Bool, true, false, ◌||◌, Option, none, some, [], ◌∷◌, ◌++◌, map,
  arith, length, drop, ◌==◌, check_from, check_from_sound,
}
use mathlib.Core.List.{map-append}
use saphire.Clib.{Bytes, codes, Run, ok, ◌>>=◌, bytes_eq}
use saphire.Clib.Text.{Lacks, eq_of_bytes_eq}
use saphire.Clib.Ctype.{starts_with, strstr}
use saphire.Xdebug.Useful.Url.{
  raw_url_decode, is_encoded, encode_byte, raw_url_encode, c_str, byte_at, decoded_copy, skip_drive,
  path_from_url, is_relative, url_prefix, to_slash, raw_path_to_url, path_to_url,
}
use saphire.Xdebug.Useful.Url.Coding.{AreBytes, raw_url_decode-encode, raw_url_decode-plain}

c_str-append : (s rest : Bytes) → Lacks 0 s → c_str (s ++ 0 ∷ rest) ≡ s
unfolding c_str
c_str-append [] rest h = refl
c_str-append (c ∷ s) rest (h, hs) = rw (h, c_str-append s rest hs) refl

-- No encoded byte is a backslash, but for that itself.
keeps_slash : ℕ → Bool
keeps_slash c = (c == b'\\') || bytes_eq (map to_slash (encode_byte true c)) (encode_byte true c)

keeps_slash_table : check_from keeps_slash 0 256 ≡ true
unfolding check_from keeps_slash bytes_eq encode_byte is_encoded
keeps_slash_table = refl

encode_byte-to_slash :
    (c : ℕ)
    → c < 256
    → (c == b'\\') ≡ false
    → map to_slash (encode_byte true c) ≡ encode_byte true c
unfolding keeps_slash
encode_byte-to_slash c h k =
    let table : keeps_slash c ≡ true =
      check_from_sound keeps_slash 256 0 c keeps_slash_table (omega arith) h in
    eq_of_bytes_eq _ _ (rw k at table)

raw_url_encode-to_slash :
    (s : Bytes)
    → AreBytes s
    → Lacks b'\\' s
    → map to_slash (raw_url_encode true s) ≡ raw_url_encode true s
unfolding raw_url_encode
raw_url_encode-to_slash [] h k = refl
raw_url_encode-to_slash (c ∷ s) (small, h) (other, k) =
    rw (map-append, encode_byte-to_slash c small other, raw_url_encode-to_slash s h k) refl

raw_url_decode-file :
    (t : Bytes) → raw_url_decode (codes "file://" ++ t) ≡ codes "file://" ++ raw_url_decode t
unfolding raw_url_decode
raw_url_decode-file t =
    ap (λ (u : Bytes). codes "file:" ++ u)
      (raw_url_decode-plain b'/' (b'/' ∷ t) refl
        ∙ ap (λ (u : Bytes). b'/' ∷ u) (raw_url_decode-plain b'/' t refl))

skip_drive-path :
    (c : ℕ) (s rest : Bytes)
    → starts_with (b':' ∷ []) s ≡ false
    → Lacks 0 (b'/' ∷ c ∷ s)
    → skip_drive (b'/' ∷ c ∷ (s ++ 0 ∷ rest)) ≡ ok (b'/' ∷ c ∷ s)
unfolding skip_drive byte_at starts_with
skip_drive-path c [] rest h k = rw (c_str-append (b'/' ∷ c ∷ []) rest k) refl
skip_drive-path c (d ∷ s) rest h k =
    let other : (d == b':') ≡ false = ground arith in
    rw (other, c_str-append (b'/' ∷ c ∷ d ∷ s) rest k) refl

path_from_url-decoded :
    (u p : Bytes) (r : Run Bytes)
    → raw_url_decode u ≡ codes "file://" ++ p
    → Lacks 0 p
    → ((rest : Bytes) → skip_drive (p ++ 0 ∷ rest) ≡ r)
    → path_from_url u ≡ r
unfolding path_from_url decoded_copy c_str strstr starts_with
path_from_url-decoded u p r e nul skipped =
    let rest = drop (length (raw_url_decode u) + 1) (u ++ 0 ∷ []) in
    let copy : decoded_copy u ≡ codes "file://" ++ (p ++ 0 ∷ rest) =
      ap (λ (d : Bytes). d ++ 0 ∷ rest) e in
    let found : strstr (c_str (codes "file://" ++ (p ++ 0 ∷ rest))) (codes "file://") ≡ some 0 =
      ap (λ (t : Bytes). strstr (codes "file://" ++ t) (codes "file://"))
        (c_str-append p rest nul) in
    ap after_copy copy
    ∙ ap (λ o. after_find o (codes "file://" ++ (p ++ 0 ∷ rest))) found
    ∙ skipped rest
  where
    after_find : Option ℕ → Bytes → Run Bytes
    after_find o dfp = elim o [ none ↦ ok u | some tmp ↦ skip_drive (drop (tmp + 7) dfp) ]

    after_copy : Bytes → Run Bytes
    after_copy dfp = after_find (strstr (c_str dfp) (codes "file://")) dfp

path_from_url-file :
    (skip : Bool) (c : ℕ) (s : Bytes)
    → AreBytes (b'/' ∷ c ∷ s)
    → Lacks 0 (b'/' ∷ c ∷ s)
    → starts_with (b':' ∷ []) s ≡ false
    → path_from_url (codes "file://" ++ raw_url_encode skip (b'/' ∷ c ∷ s)) ≡ ok (b'/' ∷ c ∷ s)
path_from_url-file skip c s h k colon =
    let p : Bytes = b'/' ∷ c ∷ s in
    path_from_url-decoded (codes "file://" ++ raw_url_encode skip p) p (ok p)
      (raw_url_decode-file (raw_url_encode skip p)
        ∙ ap (λ (t : Bytes). codes "file://" ++ t) (raw_url_decode-encode skip p h).0)
      k (λ rest. skip_drive-path c s rest colon k)

raw_path_to_url-file :
    (virtual_file : Bytes → Option Bytes) (c : ℕ) (s : Bytes)
    → (c == b'/') ≡ false
    → (c == b'\\') ≡ false
    → raw_path_to_url virtual_file (b'/' ∷ c ∷ s)
      ≡ ok (codes "file://" ++ raw_url_encode true (b'/' ∷ c ∷ s))
unfolding raw_path_to_url starts_with is_relative byte_at url_prefix
raw_path_to_url-file virtual_file c s slash back = rw (slash, back) refl

-- xdebug_path_from_url undoes xdebug_path_to_url, without a fault, for an absolute path of two bytes at
-- least, none of them NUL or a backslash, that neither begins with two slashes nor has a colon as its third byte.
pub path_from_url-path_to_url :
    (virtual_file : Bytes → Option Bytes) (c : ℕ) (s : Bytes)
    → AreBytes (b'/' ∷ c ∷ s)
    → Lacks 0 (b'/' ∷ c ∷ s)
    → Lacks b'\\' (b'/' ∷ c ∷ s)
    → (c == b'/') ≡ false
    → starts_with (b':' ∷ []) s ≡ false
    → (url : Bytes) × (path_to_url virtual_file (b'/' ∷ c ∷ s) ≡ ok url)
      × (path_from_url url ≡ ok (b'/' ∷ c ∷ s))
unfolding path_to_url
path_from_url-path_to_url virtual_file c s h nul back slash colon = (
  codes "file://" ++ raw_url_encode true (b'/' ∷ c ∷ s),
  ap (λ r. r >>= λ tmp. ok (map to_slash tmp))
        (raw_path_to_url-file virtual_file c s slash back.1.0)
      ∙ ap (λ (u : Bytes). ok (codes "file://" ++ u))
          (raw_url_encode-to_slash (b'/' ∷ c ∷ s) h back),
  path_from_url-file true c s h nul colon,
)
