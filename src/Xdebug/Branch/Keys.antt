-- ===== src/Xdebug/Branch/Keys.antt =====
-- The key that a path has in the table of paths.
use saphire.Prelude.{
  ℕ, zero, suc, ◌^◌, ◌<◌, ◌≤◌, ◌≡◌, ◌≢◌, refl, sym, ap, subst, ◌∙◌, none, some, List, ◌++◌, length,
  take, [], ◌∷◌, arith, length-append, inr,
}
use mathlib.Core.List.{append_assoc, append-nil}
use saphire.Prelude.Int.{pos}
use saphire.Clib.{Bytes, ok, strchr_cut, is_digit, digits_value, atoi}
use saphire.Clib.Decimal.{decimal, decimal-append, length-decimal, strchr_cut-decimal, atoi-decimal}
use saphire.Xdebug.Str.{XdebugStr}
use saphire.Xdebug.Str.Append.{IsStr, str_add-Appended}
use saphire.Xdebug.Branch.{XdebugPath, temp_nr, key_loop, create_key_for_path}
use saphire.Xdebug.Branch.Arrays.{Contains}
use saphire.Xdebug.Branch.Paths.{element_behind, shift}

-- The elements as numbers, each with a colon behind it.
unfoldable pub key : List ℕ → Bytes
key [] = []
key (nr ∷ es) = decimal nr (b':' ∷ key es)

-- The elements are 32-bit numbers.
abbrev pub Words : List ℕ → Type 0
Words [] = Unit
Words (nr ∷ es) = (nr < 2 ^ 32) × Words es

take-all : (n : ℕ) (s : Bytes) → length s ≤ n → take n s ≡ s
take-all zero [] h = refl
take-all zero (c ∷ s) h = absurd (omega arith)
take-all (suc n) [] h = refl
take-all (suc n) (c ∷ s) h = ap (λ t. c ∷ t) (take-all n s (omega arith))

-- The 15 bytes of `temp_nr` are enough for a 32-bit number, its colon and the NUL.
temp_nr-all : (nr : ℕ) → nr < 2 ^ 32 → temp_nr nr ≡ decimal nr (b':' ∷ [])
unfolding temp_nr
temp_nr-all nr h = take-all 14 _ (omega (arith, length-decimal nr 9 (b':' ∷ []) (omega arith)))

key-nil : key [] ≡ []
unfolding key
key-nil = refl

key-front : (nr : ℕ) (es : List ℕ) → key (nr ∷ es) ≡ decimal nr (b':' ∷ []) ++ key es
unfolding key
key-front nr es = decimal-append nr (b':' ∷ []) (key es)

module _ (path : XdebugPath) (es : List ℕ) (h : Contains path es) where
  key_loop-IsStr :
      (front back : List ℕ) (str : XdebugStr) (t : Bytes)
      → es ≡ front ++ back
      → Words back
      → IsStr str t
      → (str' : XdebugStr) × (key_loop path (length back) (length front) str ≡ ok str')
        × IsStr str' (t ++ key back)
  unfolding key_loop
  key_loop-IsStr front [] str t e words holds =
      (str, refl, subst (IsStr str) (sym (ap (λ s. t ++ s) key-nil ∙ append-nil t)) holds)
  key_loop-IsStr front (nr ∷ back) str t e (word, words) holds =
      let (str', add, holds', _) = str_add-Appended str t holds (temp_nr nr) in
      let (str₂, run, holds₂) =
        key_loop-IsStr (front ++ nr ∷ []) back str' (t ++ temp_nr nr)
          (shift path es h front nr back e) words (inr holds') in
      let next : length (front ++ nr ∷ []) ≡ suc (length front) =
        omega (arith, length-append front (nr ∷ [])) in
      let text : (t ++ temp_nr nr) ++ key back ≡ t ++ key (nr ∷ back) =
        append_assoc t (temp_nr nr) (key back)
        ∙ ap (λ s. t ++ s)
            (ap (λ s. s ++ key back) (temp_nr-all nr word) ∙ sym (key-front nr back)) in
      (
        str₂,
        rw (element_behind path es h front nr back e, add) (rw next at run),
        subst (IsStr str₂) text holds₂,
      )

key-cut : (nr : ℕ) (es : List ℕ) → strchr_cut b':' (key (nr ∷ es)) ≡ (decimal nr [], some (key es))
unfolding key strchr_cut
key-cut nr es = strchr_cut-decimal b':' nr (b':' ∷ key es) (unfold is_digit in refl)

no_cut : (m : ℕ) (fs : List ℕ) → strchr_cut b':' [] ≢ strchr_cut b':' (key (m ∷ fs))
unfolding strchr_cut
no_cut m fs e = let rest : none ≡ some (key fs) = ap (λ c. c.1) (e ∙ key-cut m fs) in cc

key-injective : (es fs : List ℕ) → key es ≡ key fs → es ≡ fs
key-injective [] [] e = refl
key-injective [] (m ∷ fs) e = absurd (no_cut m fs (ap (strchr_cut b':') (sym key-nil ∙ e)))
key-injective (n ∷ es) [] e = absurd (no_cut n es (ap (strchr_cut b':') (sym key-nil ∙ sym e)))
key-injective (n ∷ es) (m ∷ fs) e =
    let cut : (decimal n [], some (key es)) ≡ (decimal m [], some (key fs)) =
      sym (key-cut n es) ∙ ap (strchr_cut b':') e ∙ key-cut m fs in
    let digits : decimal n [] ≡ decimal m [] = ap (λ c. c.0) cut in
    let rest : some (key es) ≡ some (key fs) = ap (λ c. c.1) cut in
    let first : pos n ≡ pos m =
      sym (atoi-decimal n [] (unfold digits_value in refl))
      ∙ ap atoi digits
      ∙ atoi-decimal m [] (unfold digits_value in refl) in
    let same : n ≡ m = cc in
    let keys : key es ≡ key fs = cc in rw (same, key-injective es fs keys) refl

-- For a path with 32-bit elements xdebug_create_key_for_path does not fault and adds to the string, new
-- or not, each element in decimal with a colon behind it; and a path with the same such text has the same
-- elements, so that no two paths share a key.
pub create_key_for_path-injective :
    (path : XdebugPath) (es : List ℕ) (str : XdebugStr) (t : Bytes)
    → Contains path es
    → Words es
    → IsStr str t
    → ((str' : XdebugStr) × (create_key_for_path path str ≡ ok str') × IsStr str' (t ++ key es))
      × ((fs : List ℕ) → key fs ≡ key es → fs ≡ es)
unfolding create_key_for_path
create_key_for_path-injective path es str t h words holds = (
  rw h.count (key_loop-IsStr path es h [] es str t refl words holds),
  λ fs e. key-injective fs es e,
)
