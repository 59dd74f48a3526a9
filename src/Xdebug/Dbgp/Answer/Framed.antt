-- ===== src/Xdebug/Dbgp/Answer/Framed.antt =====
-- A message is framed so that its reader knows where it ends.
use saphire.Prelude.{
  ℕ, ◌+◌, ◌-◌, ◌≡◌, refl, sym, ap, ap₂, subst, ◌∙◌, inl, inr, Option, some, List, [], ◌∷◌, ◌++◌,
  ◌≢◌, map, arith, length, length-append,
}
use mathlib.Core.List.{append_assoc}
use saphire.Prelude.Int.{pos}
use saphire.Clib.{Bytes, Run, ok, ◌>>=◌, strchr_cut, atoi, is_digit, digits_value}
use saphire.Clib.Text.{Lacks, Lacks-append, Lacks-lacks_byte}
use saphire.Clib.Decimal.{decimal, strchr_cut-decimal, decimal-append, atoi-decimal}
use saphire.Xdebug.Str.{XdebugStr, Buffer, memory, str_new, str_add, str_addl}
use saphire.Xdebug.Str.Append.{Holds, IsStr}
use saphire.Xdebug.Xml.{Attribute, TextNode, Xml, node, return_node}
use saphire.Xdebug.Xml.Escape.{Replaces}
use saphire.Xdebug.Xml.Clean.{HaveNames, Lacks-xml_text}
use saphire.Xdebug.Str.Appends.{Appends, Appends-then, Appends-str_add, Appends-str_addl}
use saphire.Xdebug.Xml.Print.{Appends-return_node, xml_text}
use saphire.Xdebug.Dbgp.Answer.{read_string, read_text, header, make_message}

read_string-Lacks :
    (t : Bytes) (rest : Buffer) → Lacks 0 t → read_string (map some t ++ some 0 ∷ rest) ≡ ok t
unfolding read_string
read_string-Lacks [] rest h = refl
read_string-Lacks (c ∷ t) rest (h, hs) = rw (h, read_string-Lacks t rest hs) refl

node-Holds :
    (base64_encode : Bytes → Bytes) (tag : Bytes) (text : Option TextNode)
    (attributes : List Attribute) (child next : Xml) (xs : XdebugStr)
    → IsStr xs (xml_text base64_encode (node tag text attributes child next))
    → Holds xs (xml_text base64_encode (node tag text attributes child next))
unfolding xml_text
node-Holds base64_encode tag text attributes child next xs (inl (new, empty)) = cc
node-Holds base64_encode tag text attributes child next xs (inr h) = h

-- The part of make_message behind the XML text.
frame :
    (digits t : Bytes) (read : Run Bytes)
    → read ≡ ok t
    → Appends
        (λ xs. str_add xs digits >>= λ r₁. str_addl r₁ (memory (0 ∷ [])) 1 >>= λ r₂.
          str_add r₂ header >>= λ r₃.
          read >>= λ text. str_add r₃ text >>= λ r₄. str_addl r₄ (memory (0 ∷ [])) 1)
        (digits ++ (0 ∷ [] ++ (header ++ (t ++ 0 ∷ []))))
frame digits t read e =
    subst
      (λ r.
        Appends
          (λ xs. str_add xs digits >>= λ r₁. str_addl r₁ (memory (0 ∷ [])) 1 >>= λ r₂.
            str_add r₂ header >>= λ r₃.
            r >>= λ text. str_add r₃ text >>= λ r₄. str_addl r₄ (memory (0 ∷ [])) 1)
          (digits ++ (0 ∷ [] ++ (header ++ (t ++ 0 ∷ [])))))
      (sym e)
      (Appends-then _ _ _ _ (Appends-str_add digits) (
        Appends-then _ _ _ _ (Appends-str_addl (0 ∷ [])) (
          Appends-then _ _ _ _ (Appends-str_add header)
            (Appends-then _ _ _ _ (Appends-str_add t) (Appends-str_addl (0 ∷ []))))))

not_empty : (s t : Bytes) (c : ℕ) → (s ++ c ∷ t) ≢ []
not_empty [] t c = λ e. cc
not_empty (d ∷ s) t c = λ e. cc

IsStr-Holds : (xs : XdebugStr) (s t : Bytes) (c : ℕ) → IsStr xs (s ++ c ∷ t) → Holds xs (s ++ c ∷ t)
IsStr-Holds xs s t c (inl (new, empty)) = absurd (not_empty s t c empty)
IsStr-Holds xs s t c (inr h) = h

header-Lacks : Lacks 0 header
header-Lacks = Lacks-lacks_byte 0 header refl

-- The number in front of the first NUL.
strchr_cut-digits :
    (n : ℕ) (u : Bytes) → strchr_cut 0 (decimal n [] ++ 0 ∷ u) ≡ (decimal n [], some u)
unfolding strchr_cut
strchr_cut-digits n u =
    ap (strchr_cut 0) (sym (decimal-append n [] (0 ∷ u)))
    ∙ strchr_cut-decimal 0 n (0 ∷ u) (unfold is_digit in refl)

read_text-IsStr : (xs : XdebugStr) (t : Bytes) → Holds xs t → Lacks 0 t → read_text xs.d ≡ ok t
unfolding read_text
read_text-IsStr xs t h lacks = rw (read_text, h.d) (read_string-Lacks t h.rest lacks)

module _ (str_to_str : Bytes → Bytes → Bytes → Bytes) (base64_encode : Bytes → Bytes)
    (replaced : Replaces str_to_str) where
  make_message-appends :
      (message : Xml) (ys : XdebugStr) (t : Bytes)
      → return_node str_to_str base64_encode message str_new ≡ ok ys
      → Holds ys t
      → Lacks 0 t
      → (xs : XdebugStr) × (make_message str_to_str base64_encode message ≡ ok xs)
        × IsStr xs
            (decimal (ys.l + (length header + 1) - 1) [] ++ (0 ∷ [] ++ (header ++ (t ++ 0 ∷ []))))
  unfolding make_message
  make_message-appends message ys t printed holds lacks =
      let (xs, run, str) =
        (frame (decimal (ys.l + (length header + 1) - 1) []) t (read_text ys.d)
            (read_text-IsStr ys t holds lacks)).appends
          str_new [] (inl (unfold str_new in (refl, refl))) in
      (xs, rw (make_message, printed) run, str)

  make_message-Holds :
      (message : Xml) (ys : XdebugStr) (t : Bytes)
      → return_node str_to_str base64_encode message str_new ≡ ok ys
      → Holds ys t
      → Lacks 0 t
      → (xs : XdebugStr) × (make_message str_to_str base64_encode message ≡ ok xs)
        × Holds xs (decimal (length (header ++ t)) [] ++ 0 ∷ ((header ++ t) ++ 0 ∷ []))
  make_message-Holds message ys t printed holds lacks =
      let (xs, run, str) = make_message-appends message ys t printed holds lacks in
      let count : ys.l + (length header + 1) - 1 ≡ length (header ++ t) =
        omega (arith, holds.l, length-append header t) in
      let digits = ap (λ n. decimal n []) count in
      let text : header ++ (t ++ 0 ∷ []) ≡ (header ++ t) ++ 0 ∷ [] =
        sym (append_assoc header t (0 ∷ [])) in
      let all =
        IsStr-Holds xs (decimal (ys.l + (length header + 1) - 1) []) (header ++ (t ++ 0 ∷ [])) 0
          str in
      (xs, run, subst (Holds xs) (ap₂ (λ d u. d ++ 0 ∷ u) digits text) all)

  -- With a str_to_str that replaces each occurrence of a needle of one byte: make_message of an element
  -- whose tags and those of all elements in it have no NUL does not fault, and its string is a
  -- decimal number, a NUL, a text without a NUL of exactly so many bytes, and a NUL. A reader finds the
  -- number in front of the first NUL, and the text is the XML header and the text of the element.
  pub make_message-framed :
      (tag : Bytes) (text : Option TextNode) (attributes : List Attribute) (child next : Xml)
      → HaveNames (node tag text attributes child next)
      → (xs : XdebugStr) × (all digits body : Bytes) × (make_message str_to_str base64_encode
            (node tag text attributes child next)
          ≡ ok xs)
        × Holds xs all
        × (strchr_cut 0 all ≡ (digits, some (body ++ 0 ∷ [])))
        × (atoi digits ≡ pos (length body))
        × Lacks 0 body
        × (body ≡ header ++ xml_text base64_encode (node tag text attributes child next))
  make_message-framed tag text attributes child next names =
      let message = node tag text attributes child next in
      let t = xml_text base64_encode message in
      let lacks = Lacks-xml_text base64_encode message names in
      let (ys, printed, str) =
        (Appends-return_node str_to_str base64_encode replaced message).appends str_new []
          (inl (unfold str_new in (refl, refl))) in
      let holds : Holds ys t = node-Holds base64_encode tag text attributes child next ys str in
      let (xs, run, framed) = make_message-Holds message ys t printed holds lacks in
      let body = header ++ t in
      let count = length body in
      (
        xs,
        decimal count [] ++ 0 ∷ (body ++ 0 ∷ []),
        decimal count [],
        body,
        run,
        framed,
        strchr_cut-digits count (body ++ 0 ∷ []),
        unfold digits_value in atoi-decimal count [] refl,
        Lacks-append 0 header t header-Lacks lacks,
        refl,
      )
