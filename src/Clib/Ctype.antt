-- ===== src/Clib/Ctype.antt =====
-- <ctype.h> in the C locale, and strstr.
use saphire.Prelude.{
  ℕ, suc, ◌+◌, Bool, true, false, ◌&&◌, ◌||◌, Option, none, some, [], ◌∷◌, leb, ◌==◌, if◌then◌else◌,
}
use saphire.Clib.{Bytes, is_digit}

unfoldable pub is_upper : ℕ → Bool
is_upper c = leb b'A' c && leb c b'Z'

unfoldable pub tolower : ℕ → ℕ
unfolding is_upper
tolower c = if is_upper c then c + 32 else c

unfoldable pub is_xdigit : ℕ → Bool
unfolding is_digit
is_xdigit c = is_digit c || (leb b'a' c && leb c b'f') || (leb b'A' c && leb c b'F')

-- Whether a text begins with another; memcmp of the other's length, or strncmp.
unfoldable pub starts_with : Bytes → Bytes → Bool
starts_with [] s = true
starts_with (d ∷ ds) [] = false
starts_with (d ∷ ds) (c ∷ s) = (c == d) && starts_with ds s

abbrev pub shift : Option ℕ → Option ℕ
shift none = none
shift (some i) = some (suc i)

-- The index that strstr finds.
unfoldable pub strstr : Bytes → Bytes → Option ℕ
unfolding starts_with
strstr [] needle = if starts_with needle [] then some 0 else none
strstr (c ∷ s) needle =
    let later = shift (strstr s needle) in if starts_with needle (c ∷ s) then some 0 else later
