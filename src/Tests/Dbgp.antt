-- ===== src/Tests/Dbgp.antt =====
-- The parser of commands on "eval -i 1 -p \"a\\\"b\" -- x y".
use saphire.Prelude.{ℕ, ◌<◌, ◌≤◌, ◌≡◌, refl, some, List, [], ◌∷◌, ◌++◌, length, get_elem?}
use saphire.Clib.{Bytes, codes, ok, fault, out_of_bounds}
use saphire.Xdebug.Compat.{stripcslashes}
use saphire.Xdebug.Compat.Escaped.{escaped, stripcslashes-escaped}
use saphire.Xdebug.Dbgp.{Args, error_ok, error_parse, error_dup_arg, parse_cmd}
use saphire.Xdebug.Dbgp.Given.{Given, plain, in_quotes, to_the_end, item}
use saphire.Xdebug.Dbgp.Written.{written, lookup, parse_cmd-written}
use saphire.Xdebug.Dbgp.Refused.{in_front, parse_cmd-refused}

-- The text: a"b
abbrev some_text : Bytes
some_text = b'a' ∷ b'"' ∷ b'b' ∷ []

stripcslashes-escaped_example :
    ((stripcslashes (codes "\\x4Q")).1 ≡ length (stripcslashes (codes "\\x4Q")).0)
    × (length (stripcslashes (codes "\\x4Q")).0 ≤ length (codes "\\x4Q"))
    × (stripcslashes (escaped some_text) ≡ (some_text, length some_text))
stripcslashes-escaped_example = stripcslashes-escaped (codes "\\x4Q") some_text

abbrev options : List Given
options = plain b'i' (codes "1") ∷ in_quotes b'p' some_text ∷ to_the_end (codes "x y") ∷ []

parse_cmd-written_example :
    (args : Args) × (parse_cmd (codes "eval" ++ written options)
      ≡ ok (error_ok, some (codes "eval"), args))
    × ((i : ℕ) → i < 27 → get_elem? args i ≡ some (lookup i options))
parse_cmd-written_example =
    parse_cmd-written b'e' (codes "val") options (refl, (refl, (refl, (refl, tt))))
      (refl, (refl, (refl, (refl, tt))))
      (
        (refl, refl, (refl, tt), (refl, tt)),
        refl,
        ((refl, (refl, (refl, (refl, tt)))), refl, (refl, (refl, (refl, tt)))),
      )
      (refl, (refl, (refl, tt)))

abbrev one_option : List Given
one_option = plain b'i' (codes "1") ∷ []

parse_cmd-refused_example :
    (args : Args) × (parse_cmd (codes "run" ++ b' ' ∷ in_front one_option (codes "x"))
      ≡ ok (error_parse, some (codes "run"), args))
    × (parse_cmd (codes "run" ++ b' ' ∷ in_front one_option (item (plain b'i' (codes "2"))))
        ≡ ok (error_dup_arg, some (codes "run"), args))
    × (parse_cmd (codes "run" ++ b' ' ∷ in_front one_option (codes "-A 3")) ≡ fault out_of_bounds)
    × ((i : ℕ) → i < 27 → get_elem? args i ≡ some (lookup i one_option))
parse_cmd-refused_example =
    parse_cmd-refused (codes "run") one_option (refl, (refl, (refl, tt)))
      (refl, refl, (refl, tt), (refl, tt)) (refl, tt) (refl, tt) b'x' [] (plain b'i' (codes "2"))
      (codes "1") b'A' b'3' [] refl (refl, refl, (refl, tt), (refl, tt)) refl (refl, refl) refl
      (refl, tt) (refl, tt)
