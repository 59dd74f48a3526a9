-- ===== src/Xdebug/Xml/Print.antt =====
-- xdebug_xml_return_node writes the text of a tree, whatever string it appends it to.
use saphire.Prelude.{
  ◌==◌, arith, ◌≡◌, refl, sym, ap, subst, ◌∙◌, false, Option, none, some, List, [], ◌∷◌, ◌++◌,
  length,
}
use saphire.Clib.{Bytes, codes}
use saphire.Xdebug.Str.{str_add, str_addl, memory}
use saphire.Xdebug.Str.Appends.{
  Appends, Appends-str_add, Appends-str_addl, Appends-nothing, Appends-then,
}
use saphire.Xdebug.Useful.Url.{c_str}
use saphire.Xdebug.Xml.{
  Attribute, TextNode, Xml, null, node, xmlize, return_value, return_attribute, text_of,
  return_text_node, encoding, return_node,
}
use saphire.Xdebug.Xml.Escape.{Replaces, escape}
use saphire.Xdebug.Xml.Unescape.{IsSafe, escape-IsSafe, xmlize_lem}

-- A text without its entities as it stands in a file: the value of an attribute, its quotes included.
abbrev pub value_text : Option Bytes → Bytes
value_text none = []
value_text (some value) = escape value

abbrev pub attributes_text : List Attribute → Bytes
attributes_text [] = []
attributes_text (attr ∷ next) =
    codes " "
    ++ (escape attr.name
        ++ ((b'=' ∷ b'"' ∷ []) ++ (value_text attr.value ++ ((b'"' ∷ []) ++ attributes_text next))))

c_str-IsSafe : (s : Bytes) → IsSafe s → c_str s ≡ s
unfolding c_str
c_str-IsSafe [] h = refl
c_str-IsSafe (c ∷ s) (h, hs) =
    let some_byte : (c == 0) ≡ false = ground (arith, h) in
    rw some_byte (ap (λ t. c ∷ t) (c_str-IsSafe s hs))

module _ (base64_encode : Bytes → Bytes) where
  abbrev pub cdata_text : Option TextNode → Bytes
  cdata_text none = []
  cdata_text (some text) = codes "<![CDATA[" ++ (text_of base64_encode text ++ codes "]]>")

  -- The text of a tree.
  unfoldable pub xml_text : Xml → Bytes
  xml_text null = []
  xml_text (node tag text attributes child next) =
      codes "<"
      ++ (tag
          ++ (attributes_text (encoding text attributes)
              ++ (codes ">"
                  ++ (xml_text child
                      ++ (cdata_text text
                          ++ (codes "</" ++ (tag ++ (codes ">" ++ xml_text next))))))))

module _ (str_to_str : Bytes → Bytes → Bytes → Bytes) (base64_encode : Bytes → Bytes)
    (replaced : Replaces str_to_str) where
  c_str-xmlize : (s : Bytes) → c_str (xmlize str_to_str s) ≡ escape s
  c_str-xmlize s =
      ap c_str (xmlize_lem str_to_str replaced s) ∙ c_str-IsSafe (escape s) (escape-IsSafe s)

  Appends-return_value :
      (value : Option Bytes) → Appends (return_value str_to_str value) (value_text value)
  unfolding return_value
  Appends-return_value none = Appends-nothing
  Appends-return_value (some value) =
      subst (λ s. Appends (λ xs. str_add xs s) (escape value)) (sym (c_str-xmlize value))
        (Appends-str_add (escape value))

  Appends-return_attribute :
      (attribute : List Attribute)
      → Appends (return_attribute str_to_str attribute) (attributes_text attribute)
  unfolding return_attribute
  Appends-return_attribute [] = Appends-nothing
  Appends-return_attribute (attr ∷ next) =
      let name = xmlize_lem str_to_str replaced attr.name in
      Appends-then _ _ _ _ (Appends-str_addl (codes " ")) (
        Appends-then _ _ _ _
          (subst (λ s. Appends (λ xs. str_addl xs (memory s) (length s)) (escape attr.name))
            (sym name) (Appends-str_addl (escape attr.name)))
          (Appends-then _ _ _ _ (Appends-str_addl (b'=' ∷ b'"' ∷ [])) (
            Appends-then _ _ _ _ (Appends-return_value attr.value) (
              Appends-then _ _ _ _ (Appends-str_addl (b'"' ∷ []))
                (Appends-return_attribute next)))))

  Appends-return_text_node :
      (text : Option TextNode)
      → Appends (return_text_node base64_encode text) (cdata_text base64_encode text)
  unfolding return_text_node
  Appends-return_text_node none = Appends-nothing
  Appends-return_text_node (some text) =
      Appends-then _ _ _ _ (Appends-str_addl (codes "<![CDATA["))
        (Appends-then _ _ _ _ (Appends-str_add _) (Appends-str_addl (codes "]]>")))

  pub Appends-return_node :
      (message : Xml)
      → Appends (return_node str_to_str base64_encode message) (xml_text base64_encode message)
  unfolding return_node xml_text
  Appends-return_node null = Appends-nothing
  Appends-return_node (node tag text attributes child next) =
      Appends-then _ _ _ _ (Appends-str_addl (codes "<")) (
        Appends-then _ _ _ _ (Appends-str_add tag) (
          Appends-then _ _ _ _ (Appends-return_attribute (encoding text attributes)) (
            Appends-then _ _ _ _ (Appends-str_addl (codes ">")) (
              Appends-then _ _ _ _ (Appends-return_node child) (
                Appends-then _ _ _ _ (Appends-return_text_node text) (
                  Appends-then _ _ _ _ (Appends-str_addl (codes "</")) (
                    Appends-then _ _ _ _ (Appends-str_add tag) (
                      Appends-then _ _ _ _ (Appends-str_addl (codes ">"))
                        (Appends-return_node next)))))))))
