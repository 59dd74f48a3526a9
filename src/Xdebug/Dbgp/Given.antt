-- ===== src/Xdebug/Dbgp/Given.antt =====
-- What one option that a client writes does to the parser of commands.
use saphire.Prelude.{
  ℕ, ◌-◌, ◌≡◌, refl, sym, ap, fun_ext, ◌∙◌, Bool, true, false, not, ◌&&◌, Option, some, [], ◌∷◌,
  ◌++◌, arith, leb, ◌==◌,
}
use mathlib.Core.List.{append_assoc, append-nil}
use saphire.Clib.{Bytes, Run, ok}
use saphire.Clib.Text.{Lacks}
use saphire.Xdebug.Compat.Escaped.{escaped}
use saphire.Xdebug.Dbgp.{
  Code, error_ok, Args, normal, value_follows, skip_char, opt_index, store, parse_loop,
}
use saphire.Xdebug.Dbgp.Accepts.{
  at, settle, GoesOn, option-head, value_follows-text, value_follows-space, value_follows-nul,
  first-plain, first-quote, quoted-text, quoted-end, skip_char-space, skip_char-nul,
}

-- An option as a client writes it: its value alone, in quotes, or up to the end of the line.
pub data Given : Type 0 where
  plain : ℕ → Bytes → Given
  in_quotes : ℕ → Bytes → Given
  to_the_end : Bytes → Given

abbrev pub text_of : Given → Bytes
text_of (plain opt v) = v
text_of (in_quotes opt v) = v
text_of (to_the_end v) = v

-- The number of an option: those of the letters are the first 26.
abbrev pub slot : Given → ℕ
slot (plain opt v) = opt - b'a'
slot (in_quotes opt v) = opt - b'a'
slot (to_the_end v) = 26

abbrev pub item : Given → Bytes
item (plain opt v) = b'-' ∷ opt ∷ b' ' ∷ v
item (in_quotes opt v) = b'-' ∷ opt ∷ b' ' ∷ b'"' ∷ (escaped v ++ b'"' ∷ [])
item (to_the_end v) = b'-' ∷ b'-' ∷ b' ' ∷ v

abbrev pub IsLetter : ℕ → Type 0
IsLetter c = (leb b'a' c && leb c b'z') ≡ true

-- A value without quotes has a byte, no space, and no quote as its first byte; the last one may have
-- spaces.
abbrev pub IsGiven : Given → Type 0
IsGiven (plain opt []) = ⊥
IsGiven (plain opt (c ∷ v)) =
    IsLetter opt × ((c == b'"') ≡ false) × Lacks b' ' (c ∷ v) × Lacks 0 (c ∷ v)
IsGiven (in_quotes opt v) = IsLetter opt × Lacks 0 v
IsGiven (to_the_end []) = ⊥
IsGiven (to_the_end (c ∷ v)) = Lacks 0 (c ∷ v)

-- Whether another option can follow.
abbrev pub is_short : Given → Bool
is_short (plain opt v) = true
is_short (in_quotes opt v) = true
is_short (to_the_end v) = false

-- What the loop has in value_begin afterwards.
abbrev pub key_of : Given → ℕ
key_of (plain opt v) = opt
key_of (in_quotes opt v) = opt
key_of (to_the_end v) = b'-'

abbrev pub raw : Given → Bytes
raw (plain opt v) = v
raw (in_quotes opt v) = escaped v
raw (to_the_end v) = v

pub letter_index : (opt : ℕ) → IsLetter opt → opt_index opt ≡ some (opt - b'a')
unfolding opt_index
letter_index opt h = ground (arith, h)

not_dash : (opt : ℕ) → IsLetter opt → (opt == b'-') ≡ false
not_dash opt h = ground (arith, h)

pub goes_on : (opt : ℕ) (v : Bytes) → Lacks b' ' v → Lacks 0 v → GoesOn opt v
goes_on opt [] h k = tt
goes_on opt (c ∷ v) (h, hs) (k, ks) = (rw (h, k) refl, goes_on opt v hs ks)

goes_to_end : (v : Bytes) → Lacks 0 v → GoesOn b'-' v
goes_to_end [] k = tt
goes_to_end (c ∷ v) (k, ks) = (ground (arith, k), goes_to_end v ks)

-- A value in front of its end.
pub plain-value :
    (args : Args) (old opt c : ℕ) (u v s : Bytes)
    → ((c == b'"') && not (opt == b'-')) ≡ false
    → GoesOn opt v
    → parse_loop (b'-' ∷ opt ∷ b' ' ∷ c ∷ (v ++ s)) (at normal args old u)
      ≡ parse_loop s (at value_follows args opt (c ∷ v))
plain-value args old opt c u v s h k =
    option-head args old opt u (c ∷ (v ++ s))
    ∙ first-plain args opt c (v ++ s) h
    ∙ value_follows-text args opt (c ∷ []) v s k

quoted-value :
    (args : Args) (old opt : ℕ) (u v s : Bytes)
    → (opt == b'-') ≡ false
    → parse_loop (b'-' ∷ opt ∷ b' ' ∷ b'"' ∷ (escaped v ++ b'"' ∷ s)) (at normal args old u)
      ≡ settle args
          (store args (opt_index opt) v)
          (λ args'. parse_loop s (at skip_char args' opt (escaped v)))
quoted-value args old opt u v s h =
    option-head args old opt u (b'"' ∷ (escaped v ++ b'"' ∷ s))
    ∙ first-quote args opt (escaped v ++ b'"' ∷ s) h
    ∙ quoted-text args opt [] v (b'"' ∷ s)
    ∙ quoted-end args opt v s

settled :
    (args : Args) {o o' : Option ℕ} (e : o ≡ o') (v : Bytes) (k : Args → Run (Code × Args))
    → settle args (store args o v) k ≡ settle args (store args o' v) k
settled args e v k = ap (λ o. settle args (store args o v) k) e

dash_index : opt_index b'-' ≡ some 26
unfolding opt_index
dash_index = refl

dash_quote : (b : Bool) → (b && not (b'-' == b'-')) ≡ false
dash_quote true = refl
dash_quote false = refl

-- The rounds for an option that another one follows.
pub item-more :
    (g : Given) (args : Args) (old : ℕ) (u s : Bytes)
    → IsGiven g
    → is_short g ≡ true
    → parse_loop (item g ++ b' ' ∷ s) (at normal args old u)
      ≡ settle args
          (store args (some (slot g)) (text_of g))
          (λ args'. parse_loop s (at normal args' (key_of g) (raw g)))
item-more (plain opt []) args old u s bad short = absurd bad
item-more (plain opt (c ∷ v)) args old u s (letter, quote, (_, spaces), (_, nul)) short =
    let dash = not_dash opt letter in
    plain-value args old opt c u v (b' ' ∷ s) (rw quote refl) (goes_on opt v spaces nul)
    ∙ value_follows-space args opt (c ∷ v) s dash
    ∙ settled args (letter_index opt letter) (c ∷ v) _
item-more (in_quotes opt v) args old u s (letter, nul) short =
    let text : (b'"' ∷ (escaped v ++ b'"' ∷ [])) ++ b' ' ∷ s
        ≡ b'"' ∷ (escaped v ++ b'"' ∷ b' ' ∷ s) =
      ap (λ t. b'"' ∷ t) (append_assoc (escaped v) (b'"' ∷ []) (b' ' ∷ s)) in
    ap (λ t. parse_loop (b'-' ∷ opt ∷ b' ' ∷ t) (at normal args old u)) text
    ∙ quoted-value args old opt u v (b' ' ∷ s) (not_dash opt letter)
    ∙ settled args (letter_index opt letter) v _
    ∙ ap (settle args (store args (some (opt - b'a')) v))
        (fun_ext (λ args'. skip_char-space args' opt (escaped v) s))
item-more (to_the_end v) args old u s given short = cc

-- The rounds for the last option.
pub item-last :
    (g : Given) (args : Args) (old : ℕ) (u : Bytes)
    → IsGiven g
    → parse_loop (item g) (at normal args old u)
      ≡ settle args (store args (some (slot g)) (text_of g)) (λ args'. ok (error_ok, args'))
item-last (plain opt []) args old u bad = absurd bad
item-last (plain opt (c ∷ v)) args old u (letter, quote, (_, spaces), (_, nul)) =
    ap (λ t. parse_loop (b'-' ∷ opt ∷ b' ' ∷ c ∷ t) (at normal args old u)) (sym (append-nil v))
    ∙ plain-value args old opt c u v [] (rw quote refl) (goes_on opt v spaces nul)
    ∙ value_follows-nul args opt (c ∷ v)
    ∙ settled args (letter_index opt letter) (c ∷ v) _
item-last (in_quotes opt v) args old u (letter, nul) =
    quoted-value args old opt u v [] (not_dash opt letter)
    ∙ settled args (letter_index opt letter) v _
    ∙ ap (settle args (store args (some (opt - b'a')) v))
        (fun_ext (λ args'. skip_char-nul args' opt (escaped v)))
item-last (to_the_end []) args old u bad = absurd bad
item-last (to_the_end (c ∷ v)) args old u (_, nul) =
    ap (λ t. parse_loop (b'-' ∷ b'-' ∷ b' ' ∷ c ∷ t) (at normal args old u)) (sym (append-nil v))
    ∙ plain-value args old b'-' c u v [] (dash_quote (c == b'"')) (goes_to_end v nul)
    ∙ value_follows-nul args b'-' (c ∷ v)
    ∙ settled args dash_index (c ∷ v) _
