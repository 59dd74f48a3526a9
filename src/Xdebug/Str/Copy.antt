-- ===== src/Xdebug/Str/Copy.antt =====
-- Cutting, creating and copying strings.
use saphire.Prelude.{
  ℕ, zero, suc, ◌+◌, ◌-◌, ◌<◌, ◌≡◌, refl, sym, ap, inl, inr, true, false, Option, none, some, [],
  ◌∷◌, ◌++◌, map, arith, length, length-append, length-map, length-replicate, length-take, take,
  drop, take-append-drop, Bool-cases, ltb, ◌==◌, if◌then◌else◌,
}
use mathlib.Core.List.{append_assoc, map-append}
use saphire.Prelude.Int.{pos}
use saphire.Clib.{Bytes, ok, fault, null_pointer}
use saphire.Xdebug.Str.{
  Buffer, XdebugStr, malloc, memory, store, terminate, str_chop, str_new, str_create,
  str_create_from_char, str_copy, strndup,
}
use saphire.Xdebug.Str.Append.{Holds, IsStr, store-at}
use saphire.Xdebug.Str.Fetched.{fetch-append}

uncons : (b : Buffer) → 0 < length b → (c : Option ℕ) × (back : Buffer) × (b ≡ c ∷ back)
uncons [] h = absurd (omega arith)
uncons (c ∷ back) h = (c, back, refl)

-- A NUL inside a text ends it there.
terminate-Holds :
    (xs : XdebugStr) (s u : Bytes)
    → Holds xs (s ++ u)
    → (xs' : XdebugStr) × (terminate xs (length s) ≡ ok xs') × Holds xs' s × (xs'.a ≡ xs.a)
unfolding terminate
terminate-Holds xs s u h =
    let tail = map some u ++ some 0 ∷ h.rest in
    let size : length tail ≡ length u + 1 + length h.rest =
      omega (arith, length-append (map some u) (some 0 ∷ h.rest), length-map u some) in
    let (c, back, e) = uncons tail (omega (arith, size)) in
    let run : store (map some s ++ (c ∷ [] ++ back)) (length s) (0 ∷ [])
        ≡ ok (map some s ++ some 0 ∷ back) =
      store-at (map some s) (c ∷ []) back (0 ∷ []) (length s) (sym (length-map s some)) refl in
    let whole : map some (s ++ u) ++ some 0 ∷ h.rest ≡ map some s ++ c ∷ back =
      rw (map-append some s u, append_assoc (map some s) (map some u) (some 0 ∷ h.rest))
        (ap (λ b. map some s ++ b) e) in
    (
      record xs { d = some (map some s ++ some 0 ∷ back); l = length s },
      rw (terminate, h.d, whole, run),
      record {
        rest = back;
        d = refl;
        l = refl;
        a = omega (arith, h.a, size, ap length e, length-append s u);
      },
      refl,
    )

-- xdebug_str_chop of a number that is not negative cuts so many bytes off the end of the text, and
-- does nothing where the text is shorter; the buffer keeps its size.
pub str_chop-Holds :
    (xs : XdebugStr) (t : Bytes) (c : ℕ)
    → Holds xs t
    → (xs' : XdebugStr) × (str_chop xs (pos c) ≡ ok xs')
      × Holds xs' (if ltb (length t) c then t else take (length t - c) t)
      × (xs'.a ≡ xs.a)
unfolding str_chop
str_chop-Holds xs t c h = elim (Bool-cases (ltb (length t) c)) [
  | inl longer ↦
      let longer' : ltb xs.l c ≡ true = rw h.l longer in
      rw longer (xs, rw (longer', str_chop), h, refl)
  | inr fits ↦
      let k = length t - c in
      let whole : Holds xs (take k t ++ drop k t) = rw (take-append-drop k t) h in
      let (xs', run, holds, a) = terminate-Holds xs (take k t) (drop k t) whole in
      let size : xs.l - c ≡ length (take k t) = omega (arith, h.l, length-take k t) in
      let fits' : ltb xs.l c ≡ false = rw h.l fits in
      rw fits (xs', rw (fits', str_chop, size) run, holds, a)
]

replicate-append : (n : ℕ) → malloc (n + 1) ≡ malloc n ++ none ∷ []
replicate-append zero = refl
replicate-append (suc n) =
    let e : suc n + 1 ≡ suc (n + 1) = omega arith in rw e (ap (λ b. none ∷ b) (replicate-append n))

-- New memory of the size of a text and a NUL takes the text, and then the NUL.
fill_text : (s : Bytes) → store (malloc (length s + 1)) 0 s ≡ ok (map some s ++ none ∷ [])
fill_text s =
    rw replicate-append
      (store-at [] (malloc (length s)) (none ∷ []) s 0 refl (length-replicate (length s) none))

fill_nul : (s : Bytes) → store (map some s ++ none ∷ []) (length s) (0 ∷ []) ≡ ok (memory s)
fill_nul s = store-at (map some s) (none ∷ []) [] (0 ∷ []) (length s) (sym (length-map s some)) refl

created-Holds :
    (s : Bytes) → Holds (record { l = length s; a = length s + 1; d = some (memory s) }) s
created-Holds s = record { rest = []; d = refl; l = refl; a = omega arith }

-- xdebug_str_create of the length of a text at the start of memory holds that text, in a buffer that
-- fits it exactly.
pub str_create-Holds :
    (s : Bytes) (rest : Buffer)
    → (xs : XdebugStr) × (str_create (map some s ++ rest) (length s) ≡ ok xs)
      × Holds xs s
      × (xs.a ≡ length s + 1)
unfolding str_create str_new
str_create-Holds s rest =
    (_, rw (str_create, fetch-append s rest, fill_text s, fill_nul s), created-Holds s, refl)

pub str_create_from_char-Holds :
    (s : Bytes)
    → (xs : XdebugStr) × (str_create_from_char s ≡ ok xs) × Holds xs s × (xs.a ≡ length s + 1)
unfolding str_create_from_char
str_create_from_char-Holds s = str_create-Holds s (some 0 ∷ [])

-- A copy of a string, new or not, holds its text in a buffer that fits it exactly.
pub str_copy-Holds :
    (orig : XdebugStr) (s : Bytes)
    → IsStr orig s
    → (xs : XdebugStr) × (str_copy orig ≡ ok xs) × Holds xs s × (xs.a ≡ length s + 1)
unfolding str_copy str_new
str_copy-Holds orig s (inl (new, empty)) =
    let unset : orig.d ≡ none = ap {A = XdebugStr} (λ y. y.d) new in
    let none_long : orig.l ≡ 0 = ap {A = XdebugStr} (λ y. y.l) new in
    (
      record { l = 0; a = 1; d = some (memory []) },
      rw (str_copy, unset, none_long),
      rw empty (created-Holds []),
      rw empty,
    )
str_copy-Holds orig s (inr k) = (
  record { l = length s; a = length s + 1; d = some (memory s) },
  rw (str_copy, k.d, k.l, fetch-append s (some 0 ∷ k.rest), fill_text s, fill_nul s),
  created-Holds s,
  refl,
)

-- xdebug_strndup of the length of a text at the start of memory makes memory that holds the text
-- and a NUL.
pub strndup-memory :
    (s : Bytes) (rest : Buffer) → strndup (map some s ++ rest) (length s) ≡ ok (memory s)
unfolding strndup
strndup-memory [] rest = refl
strndup-memory (c ∷ s) rest =
    let more : (length (c ∷ s) == 0) ≡ false = ground arith in
    rw (strndup, fetch-append (c ∷ s) rest, more, fill_text (c ∷ s), fill_nul (c ∷ s))

-- A new string cannot be cut by nothing: the NUL is written through a null pointer.
pub str_chop-null_pointer : str_chop str_new (pos 0) ≡ fault null_pointer
unfolding str_chop str_new terminate
str_chop-null_pointer = refl
