-- ===== src/Xdebug/Xml.antt =====
-- stage1/interpreter-tracing/TE_xdebug/xdebug_xml.c, and xdebug_xmlize of xdebug_var.c: the messages
-- that the debugger sends.
pub mod Escape
pub mod Unescape
pub mod Print
pub mod Clean
use saphire.Prelude.{
  ℕ, ◌+◌, Bool, true, false, not, ◌&&◌, Option, none, some, List, [], ◌∷◌, ◌++◌, length,
  if◌then◌else◌,
}
use saphire.Clib.{Bytes, codes, Run, ok, ◌>>=◌}
use saphire.Clib.Ctype.{strstr}
use saphire.Xdebug.Str.{XdebugStr, str_add, str_addl, memory}
use saphire.Xdebug.Useful.Url.{c_str}

-- _xdebug_xml_attribute: the name_len bytes of the name, and the value_len bytes of the value.
pub record Attribute : Type 0 where
  pub name : Bytes
  pub value : Option Bytes

-- _xdebug_xml_text_node: the text_len bytes of the text.
pub record TextNode : Type 0 where
  pub text : Bytes
  pub encode : Bool

-- A pointer to a _xdebug_xml_node; the attributes in the order of their list.
pub data Xml : Type 0 where
  null : Xml
  node : Bytes → Option TextNode → List Attribute → Xml → Xml → Xml

-- xdebug_xml_node_init.
unfoldable pub node_init : Bytes → Xml
node_init tag = node tag none [] null null

-- The loop of xdebug_xml_add_attribute_exl, to the end of the list.
unfoldable pub add_last : List Attribute → Attribute → List Attribute
add_last [] attr = attr ∷ []
add_last (a ∷ attribute) attr = a ∷ add_last attribute attr

unfoldable pub add_attribute : Xml → Bytes → Option Bytes → Xml
unfolding add_last
add_attribute null attribute value = null
add_attribute (node tag text attributes child next) attribute value =
    node tag text (add_last attributes (record { name = attribute; value = value })) child next

-- The loop of xdebug_xml_add_child, to the last of the children.
unfoldable pub add_next : Xml → Xml → Xml
add_next null child = child
add_next (node tag text attributes below next) child =
    node tag text attributes below (add_next next child)

unfoldable pub add_child : Xml → Xml → Xml
unfolding add_next
add_child null child = null
add_child (node tag text attributes below next) child =
    node tag text attributes (add_next below child) next

-- The text node that xdebug_xml_add_text_ex makes; strstr reads up to a NUL.
unfoldable pub text_node : Bytes → Bool → TextNode
unfolding strstr c_str
text_node text encode = elim (strstr (c_str text) (codes "]]>")) [
  | none ↦ record { text = text; encode = encode }
  | some i ↦ record { text = text; encode = true }
]

unfoldable pub add_text_ex : Xml → Bytes → Bool → Xml
unfolding text_node
add_text_ex null text encode = null
add_text_ex (node tag old attributes child next) text encode =
    node tag (some (text_node text encode)) attributes child next

-- The attributes that are printed, with the one that is added for a text that is encoded.
unfoldable pub encoding : Option TextNode → List Attribute → List Attribute
unfolding add_last
encoding none attributes = attributes
encoding (some text) attributes =
    if text.encode
    then add_last attributes (record { name = codes "encoding"; value = some (codes "base64") })
    else attributes

-- The engine's replacement of each occurrence of a text by another.
module _ (str_to_str : Bytes → Bytes → Bytes → Bytes) where
  -- xdebug_xmlize.
  unfoldable pub xmlize : Bytes → Bytes
  xmlize [] = []
  xmlize (c ∷ string) =
      let tmp₁ = str_to_str (c ∷ string) (b'&' ∷ []) (codes "&amp;") in
      let tmp₂ = str_to_str tmp₁ (b'>' ∷ []) (codes "&gt;") in
      let tmp₃ = str_to_str tmp₂ (b'<' ∷ []) (codes "&lt;") in
      let tmp₄ = str_to_str tmp₃ (b'"' ∷ []) (codes "&quot;") in
      let tmp₅ = str_to_str tmp₄ (39 ∷ []) (codes "&#39;") in
      let tmp₆ = str_to_str tmp₅ (10 ∷ []) (codes "&#10;") in
      let tmp₇ = str_to_str tmp₆ (13 ∷ []) (codes "&#13;") in
      str_to_str tmp₇ (0 ∷ []) (codes "&#0;")

  -- `if (attr->value)`; what is added ends at a NUL.
  unfoldable pub return_value : Option Bytes → XdebugStr → Run XdebugStr
  unfolding xmlize str_add c_str
  return_value none output = ok output
  return_value (some value) output = str_add output (c_str (xmlize value))

  -- xdebug_xml_return_attribute.
  unfoldable pub return_attribute : List Attribute → XdebugStr → Run XdebugStr
  unfolding xmlize str_addl return_value
  return_attribute [] output = ok output
  return_attribute (attr ∷ next) output = do
    output₁ ← str_addl output (memory (codes " ")) 1
    output₂ ← str_addl output₁ (memory (xmlize attr.name)) (length (xmlize attr.name))
    output₃ ← str_addl output₂ (memory (b'=' ∷ b'"' ∷ [])) 2
    output₄ ← return_value attr.value output₃
    output₅ ← str_addl output₄ (memory (b'"' ∷ [])) 1
    return_attribute next output₅

-- The engine's encoding in base 64.
module _ (base64_encode : Bytes → Bytes) where
  -- What is added between the marks of a text node, up to a NUL.
  unfoldable pub text_of : TextNode → Bytes
  unfolding c_str
  text_of text = c_str (if text.encode then base64_encode text.text else text.text)

  -- xdebug_xml_return_text_node, where there is one.
  unfoldable pub return_text_node : Option TextNode → XdebugStr → Run XdebugStr
  unfolding str_add str_addl text_of
  return_text_node none output = ok output
  return_text_node (some text) output = do
    output₁ ← str_addl output (memory (codes "<![CDATA[")) 9
    output₂ ← str_add output₁ (text_of text)
    str_addl output₂ (memory (codes "]]>")) 3

module _ (str_to_str : Bytes → Bytes → Bytes → Bytes) (base64_encode : Bytes → Bytes) where
  -- xdebug_xml_return_node; of a pointer that is NULL it is not called.
  unfoldable pub return_node : Xml → XdebugStr → Run XdebugStr
  unfolding str_add str_addl return_attribute return_text_node encoding
  return_node null output = ok output
  return_node (node tag text attributes child next) output = do
    output₁ ← str_addl output (memory (codes "<")) 1
    output₂ ← str_add output₁ tag
    output₃ ← return_attribute str_to_str (encoding text attributes) output₂
    output₄ ← str_addl output₃ (memory (codes ">")) 1
    output₅ ← return_node child output₄
    output₆ ← return_text_node base64_encode text output₅
    output₇ ← str_addl output₆ (memory (codes "</")) 2
    output₈ ← str_add output₇ tag
    output₉ ← str_addl output₈ (memory (codes ">")) 1
    return_node next output₉
