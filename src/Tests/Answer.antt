-- ===== src/Tests/Answer.antt =====
-- The answers to "status -i 7" and the message of a short element.
use saphire.Prelude.{ℕ, ◌<◌, ◌≡◌, refl, ◌⊎◌, none, some, List, [], ◌∷◌, ◌++◌, length, get_elem?}
use saphire.Prelude.Int.{pos}
use saphire.Clib.{Bytes, codes, Run, ok, strchr_cut, atoi}
use saphire.Clib.Text.{Lacks}
use saphire.Xdebug.Str.{XdebugStr}
use saphire.Xdebug.Str.Append.{Holds}
use saphire.Xdebug.Useful.Url.{c_str}
use saphire.Xdebug.Xml.{Xml, null, node, add_attribute, add_child, xmlize}
use saphire.Xdebug.Xml.Escape.{replace, Replaces}
use saphire.Xdebug.Xml.Unescape.{IsSafe, unescape, xmlize-unescape}
use saphire.Xdebug.Xml.Print.{xml_text}
use saphire.Xdebug.Dbgp.{Args}
use saphire.Xdebug.Dbgp.Given.{Given, plain}
use saphire.Xdebug.Dbgp.Written.{written, lookup}
use saphire.Xdebug.Dbgp.Answer.{
  Globals, status_break, reason_ok, parse_option, header, make_message,
}
use saphire.Xdebug.Dbgp.Answer.Cases.{invalid_options, answered, parse_option-written}
use saphire.Xdebug.Dbgp.Answer.Framed.{make_message-framed}

-- A replacement of the first byte of a needle.
abbrev str_to_str : Bytes → Bytes → Bytes → Bytes
str_to_str haystack [] str = haystack
str_to_str haystack (b ∷ needle) str = replace b str haystack

str_to_str-Replaces : Replaces str_to_str
str_to_str-Replaces = λ haystack needle str. refl

xmlize-unescape_example :
    IsSafe (xmlize str_to_str (codes "a<b&'"))
    × (unescape 0 (xmlize str_to_str (codes "a<b&'")) ≡ codes "a<b&'")
xmlize-unescape_example = xmlize-unescape str_to_str str_to_str-Replaces (codes "a<b&'")

-- An encoding that changes nothing.
abbrev base64_encode : Bytes → Bytes
base64_encode s = s

make_message-framed_example :
    (xs : XdebugStr) × (all digits body : Bytes) × (make_message str_to_str base64_encode
        (node (codes "init") none [] null null)
      ≡ ok xs)
    × Holds xs all
    × (strchr_cut 0 all ≡ (digits, some (body ++ 0 ∷ [])))
    × (atoi digits ≡ pos (length body))
    × Lacks 0 body
    × (body ≡ header ++ xml_text base64_encode (node (codes "init") none [] null null))
make_message-framed_example =
    make_message-framed str_to_str base64_encode str_to_str-Replaces (codes "init") none [] null
      null ((refl, (refl, (refl, (refl, tt)))), tt, tt)

-- Handlers that leave the answer as it is.
abbrev handler : Bytes → Args → Xml → Globals Unit → Run (Xml × Globals Unit)
handler name args retval g = ok (retval, g)

abbrev globals : Globals Unit
globals = record {
  status = status_break;
  reason = reason_ok;
  lastcmd = none;
  lasttransid = none;
  engine = tt;
}

abbrev options : List Given
options = plain b'i' (codes "7") ∷ []

abbrev response : Xml
response = node (codes "response") none [] null null

abbrev named : Xml
named = add_attribute response (codes "command") (some (codes "status"))

parse_option-written_example :
    (args : Args) × ((i : ℕ) → i < 27 → get_elem? args i ≡ some (lookup i options))
    × (((lookup 8 options ≡ none)
          × (parse_option handler (codes "status" ++ written options) response globals
              ≡ ok (pos 0, add_child named invalid_options, globals)))
        ⊎ ((id : Bytes) × (lookup 8 options ≡ some id)
            × (parse_option handler (codes "status" ++ written options) response globals
                ≡ answered handler
                    (codes "status")
                    args
                    (c_str id)
                    (add_attribute named (codes "transaction_id") (some (c_str id)))
                    globals)))
parse_option-written_example =
    parse_option-written handler b's' (codes "tatus") options response globals
      (refl, (refl, (refl, (refl, (refl, (refl, tt))))))
      (refl, (refl, (refl, (refl, (refl, (refl, tt)))))) (refl, refl, (refl, tt), (refl, tt))
      (refl, tt)
