-- ===== src/Xdebug/Dbgp/Refused.antt =====
-- What the parser of commands reports, behind options that it accepts.
use saphire.Prelude.{
  ℕ, zero, suc, ◌+◌, ◌-◌, ◌≤◌, ◌<◌, ◌≡◌, refl, sym, ap, ◌∙◌, inl, inr, true, false, Option, none,
  some, List, [], ◌∷◌, ◌++◌, arith, leb, ltb, ◌||◌, ◌==◌, get_elem?, set, length, length-set,
  length-replicate, get_elem?-replicate, Bool-cases,
}
use mathlib.Core.List.{append-nil}
use saphire.Clib.{Bytes, Run, ok, fault, out_of_bounds, ◌>>=◌}
use saphire.Clib.Text.{Lacks}
use saphire.Xdebug.Dbgp.{
  Code, error_ok, error_parse, error_dup_arg, Args, no_args, normal, opt_index, store, switch,
  parse_loop, parse_cmd,
}
use saphire.Xdebug.Dbgp.Accepts.{at, settle, value_follows-nul}
use saphire.Xdebug.Dbgp.Given.{
  Given, text_of, slot, item, IsGiven, is_short, key_of, raw, item-more, item-last, plain-value,
  goes_on,
}
use saphire.Xdebug.Dbgp.Written.{
  AreGiven, lookup, AreDistinct, stored, Apart, store-slot, set-Apart, slot-small, stored-no_args,
  parse_cmd-cut, tail-AreGiven, head-IsGiven,
}

-- The options, each with a space behind it, and what follows.
abbrev pub in_front : List Given → Bytes → Bytes
in_front [] t = t
in_front (g ∷ gs) t = item g ++ b' ' ∷ in_front gs t

-- Another option can follow each.
abbrev pub AreShort : List Given → Type 0
AreShort [] = Unit
AreShort (g ∷ gs) = (is_short g ≡ true) × AreShort gs

in_front-runs :
    (gs : List Given) (t : Bytes) (args : Args) (old : ℕ) (u : Bytes) (r : Run (Code × Args))
    → AreGiven gs
    → AreShort gs
    → AreDistinct gs
    → Apart args gs
    → ((old : ℕ) (u : Bytes) → parse_loop t (at normal (stored args gs) old u) ≡ r)
    → parse_loop (in_front gs t) (at normal args old u) ≡ r
in_front-runs [] t args old u r given short distinct apart k = k old u
in_front-runs (g ∷ gs) t args old u r given (one, short) (fresh, distinct) apart k =
    item-more g args old u (in_front gs t) (head-IsGiven g gs given) one
    ∙ ap
        (λ r.
          settle args r (λ args'. parse_loop (in_front gs t) (at normal args' (key_of g) (raw g))))
        (store-slot args g gs given apart)
    ∙ in_front-runs gs t (set args (slot g) (some (text_of g))) (key_of g) (raw g) r
        (tail-AreGiven g gs given) short distinct (set-Apart args g gs given apart fresh) k

no_dash :
    (args : Args) (old c : ℕ) (u t : Bytes)
    → (c == b'-') ≡ false
    → parse_loop (c ∷ t) (at normal args old u) ≡ ok (error_parse, args)
unfolding parse_loop switch
no_dash args old c u t h = rw h refl

store-taken :
    (args : Args) (i : ℕ) (v w : Bytes)
    → get_elem? args i ≡ some (some w)
    → store args (some i) v ≡ ok none
unfolding store
store-taken args i v w h = rw (store, h) refl

get_elem?-past : (args : Args) (i : ℕ) → length args ≤ i → get_elem? args i ≡ none
get_elem?-past [] i h = refl
get_elem?-past (a ∷ args) zero h = absurd (omega (arith, h))
get_elem?-past (a ∷ args) (suc i) h = get_elem?-past args i (omega (arith, h))

-- A byte that stands for none of the 27 options: neither a dash nor between the small a and the byte
-- behind the small z.
abbrev pub IsOutside : ℕ → Type 0
IsOutside opt = ((opt == b'-') ≡ false) × ((ltb opt b'a' || ltb (b'z' + 1) opt) ≡ true)

store-outside :
    (args : Args) (opt : ℕ) (v : Bytes)
    → length args ≡ 27
    → IsOutside opt
    → store args (opt_index opt) v ≡ fault out_of_bounds
unfolding store opt_index
store-outside args opt v size (dash, range) = elim (Bool-cases (leb b'a' opt)) [
  | inl large ↦
      let past : length args ≤ opt - b'a' = ground (arith, size, range, large) in
      rw (opt_index, dash, large, store, get_elem?-past args (opt - b'a') past) refl
  | inr low ↦ rw (opt_index, dash, low) refl
]

length-stored : (gs : List Given) (args : Args) → length (stored args gs) ≡ length args
length-stored [] args = refl
length-stored (g ∷ gs) args =
    length-stored gs (set args (slot g) (some (text_of g)))
    ∙ length-set args (slot g) (some (text_of g))

module _ (cmd : Bytes) (gs : List Given) (name : Lacks b' ' cmd) (given : AreGiven gs)
    (short : AreShort gs) (distinct : AreDistinct gs) where
  parse_cmd-in_front :
      (t : Bytes) (r : Run (Code × Args))
      → ((old : ℕ) (u : Bytes) → parse_loop t (at normal (stored no_args gs) old u) ≡ r)
      → parse_cmd (cmd ++ b' ' ∷ in_front gs t) ≡ r >>= λ r. ok (r.0, some cmd, r.1)
  parse_cmd-in_front t r k =
      parse_cmd-cut cmd (in_front gs t) name
      ∙ ap (λ r. r >>= λ r. ok (r.0, some cmd, r.1))
          (in_front-runs gs t no_args b' ' [] r given short distinct
            (λ i small. inl (get_elem?-replicate 27 i none small)) k)

  -- Behind a command's name without a space and options that can be accepted, each with a space behind it,
  -- xdebug_dbgp_parse_cmd reports a parse error at a byte that is no dash, and duplicate arguments
  -- at the end of an option that is already given; both with the name and the arguments stored
  -- so far. At the end of an option whose byte is no dash and neither between a and z nor the next it writes
  -- out of bounds.
  pub parse_cmd-refused :
      (c : ℕ) (t : Bytes) (g : Given) (w : Bytes) (opt d : ℕ) (v : Bytes)
      → (c == b'-') ≡ false
      → IsGiven g
      → lookup (slot g) gs ≡ some w
      → IsOutside opt
      → (d == b'"') ≡ false
      → Lacks b' ' (d ∷ v)
      → Lacks 0 (d ∷ v)
      → (args : Args) × (parse_cmd (cmd ++ b' ' ∷ in_front gs (c ∷ t))
          ≡ ok (error_parse, some cmd, args))
        × (parse_cmd (cmd ++ b' ' ∷ in_front gs (item g)) ≡ ok (error_dup_arg, some cmd, args))
        × (parse_cmd (cmd ++ b' ' ∷ in_front gs (b'-' ∷ opt ∷ b' ' ∷ d ∷ v)) ≡ fault out_of_bounds)
        × ((i : ℕ) → i < 27 → get_elem? args i ≡ some (lookup i gs))
  parse_cmd-refused c t g w opt d v dash again taken outside quote (_, spaces) (_, nul) =
      let args = stored no_args gs in
      let held : get_elem? args (slot g) ≡ some (some w) =
        stored-no_args gs (slot g) given distinct (slot-small g again) ∙ ap some taken in
      let size : length args ≡ 27 =
        length-stored gs no_args ∙ length-replicate {A = Option Bytes} 27 none in
      (
        args,
        parse_cmd-in_front (c ∷ t) (ok (error_parse, args)) (λ old u. no_dash args old c u t dash),
        parse_cmd-in_front (item g) (ok (error_dup_arg, args)) (λ old u.
            item-last g args old u again
            ∙ ap (λ r. settle args r (λ args'. ok (error_ok, args')))
                (store-taken args (slot g) (text_of g) w held)),
        parse_cmd-in_front (b'-' ∷ opt ∷ b' ' ∷ d ∷ v) (fault out_of_bounds) (λ old u.
            ap (λ t. parse_loop (b'-' ∷ opt ∷ b' ' ∷ d ∷ t) (at normal args old u))
              (sym (append-nil v))
            ∙ plain-value args old opt d u v [] (rw quote refl) (goes_on opt v spaces nul)
            ∙ value_follows-nul args opt (d ∷ v)
            ∙ ap (λ r. settle args r (λ args'. ok (error_ok, args')))
                (store-outside args opt (d ∷ v) size outside)),
        λ i small. stored-no_args gs i given distinct small,
      )
