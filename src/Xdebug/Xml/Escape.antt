-- ===== src/Xdebug/Xml/Escape.antt =====
-- Eight replacements in the order of xdebug_xmlize are one substitution, byte by byte.
use saphire.Prelude.{
  ℕ, ◌≡◌, refl, sym, ap, ◌∙◌, inl, inr, false, List, [], ◌∷◌, ◌++◌, ◌==◌, ==_iff, if◌then◌else◌,
  Bool-cases,
}
use mathlib.Core.List.{append_assoc, append-nil}
use saphire.Clib.{Bytes, codes}

-- A text for each occurrence of a byte.
unfoldable pub replace : ℕ → Bytes → Bytes → Bytes
replace b to [] = []
replace b to (c ∷ s) = let rest = replace b to s in if c == b then to ++ rest else c ∷ rest

-- What the engine documents of its function, for a needle of one byte.
abbrev pub Replaces : (Bytes → Bytes → Bytes → Bytes) → Type 0
Replaces str_to_str =
    (haystack : Bytes) (needle : ℕ) (str : Bytes)
    → str_to_str haystack (needle ∷ []) str ≡ replace needle str haystack

-- The bytes that have an entity.
abbrev pub table : List (ℕ × Bytes)
table =
    (b'&', codes "&amp;")
    ∷ (b'>', codes "&gt;")
    ∷ (b'<', codes "&lt;")
    ∷ (b'"', codes "&quot;")
    ∷ (39, codes "&#39;")
    ∷ (10, codes "&#10;")
    ∷ (13, codes "&#13;")
    ∷ (0, codes "&#0;")
    ∷ []

-- What a byte becomes.
unfoldable pub entity : List (ℕ × Bytes) → ℕ → Bytes
entity [] c = c ∷ []
entity ((b, to) ∷ ps) c = let rest = entity ps c in if c == b then to else rest

unfoldable pub escape : Bytes → Bytes
unfolding entity
escape [] = []
escape (c ∷ s) = entity table c ++ escape s

replace-append : (b : ℕ) (to s t : Bytes) → replace b to (s ++ t) ≡ replace b to s ++ replace b to t
unfolding replace
replace-append b to [] t = refl
replace-append b to (c ∷ s) t = elim (Bool-cases (c == b)) [
  | inl here ↦
      rw (here, replace-append b to s t) (sym (append_assoc to (replace b to s) (replace b to t)))
  | inr other ↦ rw (other, replace-append b to s t) refl
]

-- Replacements one after the other.
unfoldable pub replaces : List (ℕ × Bytes) → Bytes → Bytes
replaces [] s = s
replaces ((b, to) ∷ ps) s = replaces ps (replace b to s)

replaces-append :
    (ps : List (ℕ × Bytes)) (s t : Bytes) → replaces ps (s ++ t) ≡ replaces ps s ++ replaces ps t
unfolding replaces
replaces-append [] s t = refl
replaces-append ((b, to) ∷ ps) s t =
    ap (replaces ps) (replace-append b to s t)
    ∙ replaces-append ps (replace b to s) (replace b to t)

-- No later replacement changes an entity.
AreKept : List (ℕ × Bytes) → Type 0
AreKept [] = Unit
AreKept ((b, to) ∷ ps) = (replaces ps to ≡ to) × AreKept ps

replaces-byte : (ps : List (ℕ × Bytes)) (c : ℕ) → AreKept ps → replaces ps (c ∷ []) ≡ entity ps c
unfolding replaces replace entity AreKept
replaces-byte [] c h = refl
replaces-byte ((b, to) ∷ ps) c (kept, h) = elim (Bool-cases (c == b)) [
  | inl here ↦ rw here (ap (replaces ps) (append-nil to) ∙ kept)
  | inr other ↦ rw other (replaces-byte ps c h)
]

table-AreKept : AreKept table
unfolding AreKept replaces replace
table-AreKept = (refl, (refl, (refl, (refl, (refl, (refl, (refl, (refl, tt))))))))

replaces-nothing : (ps : List (ℕ × Bytes)) → replaces ps [] ≡ []
unfolding replaces replace
replaces-nothing [] = refl
replaces-nothing ((b, to) ∷ ps) = replaces-nothing ps

pub replaces-escape : (s : Bytes) → replaces table s ≡ escape s
unfolding escape
replaces-escape [] = replaces-nothing table
replaces-escape (c ∷ s) =
    replaces-append table (c ∷ []) s
    ∙ ap (λ e. e ++ replaces table s) (replaces-byte table c table-AreKept)
    ∙ ap (λ e. entity table c ++ e) (replaces-escape s)

-- What holds of the bytes that have an entity, and of them only.
unfoldable pub All : (ℕ → Bytes → Type 0) → List (ℕ × Bytes) → Type 0
All P [] = Unit
All P ((b, to) ∷ ps) = P b to × All P ps

unfoldable pub IsPlain : List (ℕ × Bytes) → ℕ → Type 0
IsPlain [] c = Unit
IsPlain ((b, to) ∷ ps) c = ((c == b) ≡ false) × IsPlain ps c

-- What holds of those with their entities, and of the other bytes, holds of each byte.
pub entity-elim :
    (P : ℕ → Bytes → Type 0) (ps : List (ℕ × Bytes)) (c : ℕ)
    → All P ps
    → (IsPlain ps c → P c (c ∷ []))
    → P c (entity ps c)
unfolding entity All IsPlain
entity-elim P [] c known plain = plain tt
entity-elim P ((b, to) ∷ ps) c (p, known) plain = elim (Bool-cases (c == b)) [
  | inl here ↦ let same : c ≡ b = (==_iff c b).0 here in rw here (rw same p)
  | inr other ↦ rw other (entity-elim P ps c known (λ rest. plain (other, rest)))
]
