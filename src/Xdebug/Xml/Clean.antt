-- ===== src/Xdebug/Xml/Clean.antt =====
-- The text of a tree has no NUL, whatever stands in its attributes and texts.
use saphire.Prelude.{
  refl, inl, inr, Option, none, some, List, [], ◌∷◌, arith, ◌==◌, if◌then◌else◌, Bool-cases,
}
use saphire.Clib.{Bytes, codes}
use saphire.Clib.Text.{Lacks, Lacks-append}
use saphire.Xdebug.Useful.Url.{c_str}
use saphire.Xdebug.Xml.{Attribute, TextNode, Xml, null, node, text_of, encoding}
use saphire.Xdebug.Xml.Escape.{escape}
use saphire.Xdebug.Xml.Unescape.{IsSafe, escape-IsSafe}
use saphire.Xdebug.Xml.Print.{attributes_text, value_text, cdata_text, xml_text}

-- No tag has a NUL.
abbrev pub HaveNames : Xml → Type 0
HaveNames null = Unit
HaveNames (node tag text attributes child next) = Lacks 0 tag × HaveNames child × HaveNames next

Lacks-IsSafe : (s : Bytes) → IsSafe s → Lacks 0 s
Lacks-IsSafe [] h = tt
Lacks-IsSafe (c ∷ s) (h, hs) = (ground (arith, h), Lacks-IsSafe s hs)

Lacks-c_str : (s : Bytes) → Lacks 0 (c_str s)
unfolding c_str
Lacks-c_str [] = tt
Lacks-c_str (c ∷ s) = elim (Bool-cases (c == 0)) [
  | inl here ↦ rw here tt
  | inr other ↦ rw other (other, Lacks-c_str s)
]

Lacks-attributes_text : (attributes : List Attribute) → Lacks 0 (attributes_text attributes)
Lacks-attributes_text [] = tt
Lacks-attributes_text (attr ∷ next) =
    let name = Lacks-IsSafe (escape attr.name) (escape-IsSafe attr.name) in
    (
      refl,
      Lacks-append 0 (escape attr.name) _ name (
        refl,
        (
          refl,
          Lacks-append 0 (value_text attr.value) _ (lacks_value attr.value)
              (refl, Lacks-attributes_text next),
        ),
      ),
    )
  where
    lacks_value : (value : Option Bytes) → Lacks 0 (value_text value)
    lacks_value none = tt
    lacks_value (some value) = Lacks-IsSafe (escape value) (escape-IsSafe value)

module _ (base64_encode : Bytes → Bytes) where
  Lacks-cdata_text : (text : Option TextNode) → Lacks 0 (cdata_text base64_encode text)
  unfolding text_of
  Lacks-cdata_text none = tt
  Lacks-cdata_text (some text) = (
    refl,
    (
      refl,
      (
        refl,
        (
          refl,
          (
            refl,
            (
              refl,
              (
                refl,
                (
                  refl,
                  (
                    refl,
                    Lacks-append 0 (text_of base64_encode text) (codes "]]>")
                        (Lacks-c_str (if text.encode then base64_encode text.text else text.text))
                        (refl, (refl, (refl, tt))),
                  ),
                ),
              ),
            ),
          ),
        ),
      ),
    ),
  )

  pub Lacks-xml_text :
      (message : Xml) → HaveNames message → Lacks 0 (xml_text base64_encode message)
  unfolding xml_text
  Lacks-xml_text null h = tt
  Lacks-xml_text (node tag text attributes child next) (h, below, behind) =
      let end = Lacks-append 0 tag _ h (refl, Lacks-xml_text next behind) in
      let inner =
        Lacks-append 0 (cdata_text base64_encode text) _ (Lacks-cdata_text text)
          (refl, (refl, end)) in
      let all =
        Lacks-append 0 (xml_text base64_encode child) _ (Lacks-xml_text child below) inner in
      (
        refl,
        Lacks-append 0 tag _ h (
            Lacks-append 0 (attributes_text (encoding text attributes)) _
              (Lacks-attributes_text (encoding text attributes)) (refl, all)),
      )
