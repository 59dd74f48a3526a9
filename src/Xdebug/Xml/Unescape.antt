-- ===== src/Xdebug/Xml/Unescape.antt =====
-- What xdebug_xmlize makes of a text is safe in XML and is read as that text.
use saphire.Prelude.{
  ℕ, zero, suc, ◌≡◌, refl, sym, ap, subst, ◌||◌, ◌∙◌, Bool, false, List, [], ◌∷◌, ◌++◌, ◌==◌,
  if◌then◌else◌, length,
}
use saphire.Clib.{Bytes, codes}
use saphire.Clib.Ctype.{starts_with}
use saphire.Xdebug.Xml.{xmlize}
use saphire.Xdebug.Xml.Escape.{
  replace, Replaces, replaces, table, entity, escape, replaces-escape, All, IsPlain, entity-elim,
}

-- The entities that a reader of XML knows, without the &, and the byte that each stands for.
abbrev names : List (Bytes × ℕ)
names =
    (codes "amp;", b'&')
    ∷ (codes "gt;", b'>')
    ∷ (codes "lt;", b'<')
    ∷ (codes "quot;", b'"')
    ∷ (codes "#39;", 39)
    ∷ (codes "#10;", 10)
    ∷ (codes "#13;", 13)
    ∷ (codes "#0;", 0)
    ∷ []

-- The byte behind an &, and how many bytes its name has; the & itself where there is no name.
unfoldable named : List (Bytes × ℕ) → Bytes → ℕ × ℕ
unfolding starts_with
named [] s = (b'&', 0)
named ((name, c) ∷ ns) s =
    let rest = named ns s in if starts_with name s then (c, length name) else rest

unfoldable read_byte : ℕ → Bytes → ℕ × ℕ
unfolding named
read_byte c s = if c == b'&' then named names s else (c, 0)

-- A text with its entities read, the first `n` bytes passed over.
unfoldable pub unescape : ℕ → Bytes → Bytes
unfolding read_byte
unescape n [] = []
unescape (suc n) (c ∷ s) = unescape n s
unescape zero (c ∷ s) = let (b, n) = read_byte c s in b ∷ unescape n s

unescape-plain : (c : ℕ) (t : Bytes) → IsPlain table c → unescape 0 (c ∷ t) ≡ c ∷ unescape 0 t
unfolding IsPlain unescape read_byte
unescape-plain c t (amp, rest) = rw amp refl

unescape-entity : (c : ℕ) (t : Bytes) → unescape 0 (entity table c ++ t) ≡ c ∷ unescape 0 t
unfolding All unescape read_byte named starts_with
unescape-entity c t =
    entity-elim (λ c e. unescape 0 (e ++ t) ≡ c ∷ unescape 0 t) table c
      (refl, (refl, (refl, (refl, (refl, (refl, (refl, (refl, tt)))))))) (unescape-plain c t)

unescape-escape : (s : Bytes) → unescape 0 (escape s) ≡ s
unfolding escape unescape
unescape-escape [] = refl
unescape-escape (c ∷ s) = unescape-entity c (escape s) ∙ ap (λ t. c ∷ t) (unescape-escape s)

-- The bytes that end a value or that a reader of XML does not keep.
abbrev pub is_unsafe : ℕ → Bool
is_unsafe c =
    (c == b'<') || (c == b'>') || (c == b'"') || (c == 39) || (c == 10) || (c == 13) || (c == 0)

abbrev pub IsSafe : Bytes → Type 0
IsSafe [] = Unit
IsSafe (c ∷ s) = (is_unsafe c ≡ false) × IsSafe s

IsSafe-append : (s t : Bytes) → IsSafe s → IsSafe t → IsSafe (s ++ t)
IsSafe-append [] t h k = k
IsSafe-append (c ∷ s) t (h, hs) k = (h, IsSafe-append s t hs k)

plain-IsSafe : (c : ℕ) → IsPlain table c → IsSafe (c ∷ [])
unfolding IsPlain
plain-IsSafe c (amp, (gt, (lt, (quot, (apos, (lf, (cr, (nul, _)))))))) =
    (rw (gt, lt, quot, apos, lf, cr, nul) refl, tt)

entity-IsSafe : (c : ℕ) → IsSafe (entity table c)
unfolding All
entity-IsSafe c =
    entity-elim (λ c e. IsSafe e) table c
      (
        (refl, (refl, (refl, (refl, (refl, tt))))),
        (
          (refl, (refl, (refl, (refl, tt)))),
          (
            (refl, (refl, (refl, (refl, tt)))),
            (
              (refl, (refl, (refl, (refl, (refl, (refl, tt)))))),
              (
                (refl, (refl, (refl, (refl, (refl, tt))))),
                (
                  (refl, (refl, (refl, (refl, (refl, tt))))),
                  (
                    (refl, (refl, (refl, (refl, (refl, tt))))),
                    ((refl, (refl, (refl, (refl, tt)))), tt),
                  ),
                ),
              ),
            ),
          ),
        ),
      )
      (plain-IsSafe c)

pub escape-IsSafe : (s : Bytes) → IsSafe (escape s)
unfolding escape
escape-IsSafe [] = tt
escape-IsSafe (c ∷ s) =
    IsSafe-append (entity table c) (escape s) (entity-IsSafe c) (escape-IsSafe s)

module _ (str_to_str : Bytes → Bytes → Bytes → Bytes) (replaced : Replaces str_to_str) where
  chained : List (ℕ × Bytes) → Bytes → Bytes
  chained [] s = s
  chained ((b, to) ∷ ps) s = chained ps (str_to_str s (b ∷ []) to)

  chained-replaces : (ps : List (ℕ × Bytes)) (s : Bytes) → chained ps s ≡ replaces ps s
  unfolding chained replaces
  chained-replaces [] s = refl
  chained-replaces ((b, to) ∷ ps) s =
      ap (chained ps) (replaced s b to) ∙ chained-replaces ps (replace b to s)

  pub xmlize_lem : (s : Bytes) → xmlize str_to_str s ≡ escape s
  unfolding xmlize chained
  xmlize_lem [] = unfold escape in refl
  xmlize_lem (c ∷ s) = chained-replaces table (c ∷ s) ∙ replaces-escape (c ∷ s)

  -- With a str_to_str that replaces each occurrence of a needle of one byte: what xdebug_xmlize makes of any
  -- text has no <, >, quote, line feed, carriage return or NUL, and is the text again when its
  -- entities are read.
  pub xmlize-unescape :
      (s : Bytes) → IsSafe (xmlize str_to_str s) × (unescape 0 (xmlize str_to_str s) ≡ s)
  xmlize-unescape s = (
    subst IsSafe (sym (xmlize_lem s)) (escape-IsSafe s),
    ap (unescape 0) (xmlize_lem s) ∙ unescape-escape s,
  )
