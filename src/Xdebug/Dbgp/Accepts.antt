-- ===== src/Xdebug/Dbgp/Accepts.antt =====
-- The rounds of the parser of commands within an option and its value.
use saphire.Prelude.{
  ℕ, ◌≡◌, refl, sym, ap, ◌∙◌, inl, inr, Bool, false, not, ◌&&◌, ◌||◌, Option, none, some, [], ◌∷◌,
  ◌++◌, arith, ◌==◌, Bool-cases,
}
use mathlib.Core.List.{append_assoc, append-nil}
use saphire.Clib.{Bytes, Run, ok, fault, ◌>>=◌}
use saphire.Xdebug.Compat.Escaped.{escaped, escaped-special, escaped-plain, stripcslashes-escaped}
use saphire.Xdebug.Dbgp.{
  Code, error_ok, error_dup_arg, Args, State, normal, quoted, value_follows_first_char,
  value_follows, skip_char, Parser, next, stop, opt_index, store, after_value, switch, finish,
  parse_loop,
}

-- The variables of the loop; charescaped is never set.
abbrev pub at : State → Args → ℕ → Bytes → Parser
at state args opt value = record {
  state = state;
  args = args;
  opt = opt;
  charescaped = false;
  value = value;
}

-- What follows the attempt to store a value: an error, or what stands behind it.
abbrev pub settle : Args → Run (Option Args) → (Args → Run (Code × Args)) → Run (Code × Args)
settle args (ok none) k = ok (error_dup_arg, args)
settle args (ok (some args')) k = k args'
settle args (fault e) k = fault e

-- Whether a byte ends a value without quotes.
abbrev pub is_end : ℕ → ℕ → Bool
is_end opt c = ((c == b' ') && not (opt == b'-')) || (c == 0)

abbrev pub GoesOn : ℕ → Bytes → Type 0
GoesOn opt [] = Unit
GoesOn opt (c ∷ s) = (is_end opt c ≡ false) × GoesOn opt s

-- The bytes in front of a value.
pub option-head :
    (args : Args) (old opt : ℕ) (v s : Bytes)
    → parse_loop (b'-' ∷ opt ∷ b' ' ∷ s) (at normal args old v)
      ≡ parse_loop s (at value_follows_first_char args opt [])
unfolding parse_loop switch
option-head args old opt v s = refl

pub value_follows-byte :
    (args : Args) (opt c : ℕ) (v s : Bytes)
    → is_end opt c ≡ false
    → parse_loop (c ∷ s) (at value_follows args opt v)
      ≡ parse_loop s (at value_follows args opt (v ++ c ∷ []))
unfolding parse_loop switch
value_follows-byte args opt c v s h = rw h refl

pub value_follows-text :
    (args : Args) (opt : ℕ) (v w s : Bytes)
    → GoesOn opt w
    → parse_loop (w ++ s) (at value_follows args opt v)
      ≡ parse_loop s (at value_follows args opt (v ++ w))
value_follows-text args opt v [] s h =
    ap (λ u. parse_loop s (at value_follows args opt u)) (sym (append-nil v))
value_follows-text args opt v (c ∷ w) s (h, hs) =
    value_follows-byte args opt c v (w ++ s) h
    ∙ value_follows-text args opt (v ++ c ∷ []) w s hs
    ∙ ap (λ u. parse_loop s (at value_follows args opt u)) (append_assoc v (c ∷ []) w)

settle-next :
    (args : Args) (opt : ℕ) (v s : Bytes) (state : State) (r : Run (Option Args))
    → ((r >>= (λ stored. ok (after_value (at value_follows args opt v) state stored)))
        >>= (λ round. elim round [ stop code ↦ ok (code, args) | next p' ↦ parse_loop s p' ]))
      ≡ settle args r (λ args'. parse_loop s (at state args' opt v))
unfolding after_value
settle-next args opt v s state (ok none) = refl
settle-next args opt v s state (ok (some args')) = refl
settle-next args opt v s state (fault e) = refl

settle-finish :
    (args : Args) (opt : ℕ) (v : Bytes) (r : Run (Option Args))
    → ((r >>= (λ stored. ok (after_value (at value_follows args opt v) normal stored)))
        >>= finish args)
      ≡ settle args r (λ args'. ok (error_ok, args'))
unfolding after_value finish
settle-finish args opt v (ok none) = refl
settle-finish args opt v (ok (some args')) = refl
settle-finish args opt v (fault e) = refl

settle-quoted :
    (args : Args) (opt : ℕ) (v s : Bytes) (r : Run (Option Args))
    → ((r >>= (λ stored. ok (after_value (at quoted args opt v) skip_char stored)))
        >>= (λ round. elim round [ stop code ↦ ok (code, args) | next p' ↦ parse_loop s p' ]))
      ≡ settle args r (λ args'. parse_loop s (at skip_char args' opt v))
unfolding after_value
settle-quoted args opt v s (ok none) = refl
settle-quoted args opt v s (ok (some args')) = refl
settle-quoted args opt v s (fault e) = refl

-- The end of a value without quotes, by a space or the NUL.
pub value_follows-space :
    (args : Args) (opt : ℕ) (v s : Bytes)
    → (opt == b'-') ≡ false
    → parse_loop (b' ' ∷ s) (at value_follows args opt v)
      ≡ settle args (store args (opt_index opt) v) (λ args'. parse_loop s (at normal args' opt v))
unfolding parse_loop switch
value_follows-space args opt v s h = rw h (settle-next args opt v s normal _)

pub value_follows-nul :
    (args : Args) (opt : ℕ) (v : Bytes)
    → parse_loop [] (at value_follows args opt v)
      ≡ settle args (store args (opt_index opt) v) (λ args'. ok (error_ok, args'))
unfolding parse_loop switch
value_follows-nul args opt v = settle-finish args opt v _

-- The first byte of a value.
pub first-plain :
    (args : Args) (opt c : ℕ) (s : Bytes)
    → ((c == b'"') && not (opt == b'-')) ≡ false
    → parse_loop (c ∷ s) (at value_follows_first_char args opt [])
      ≡ parse_loop s (at value_follows args opt (c ∷ []))
unfolding parse_loop switch
first-plain args opt c s h = rw h refl

pub first-quote :
    (args : Args) (opt : ℕ) (s : Bytes)
    → (opt == b'-') ≡ false
    → parse_loop (b'"' ∷ s) (at value_follows_first_char args opt [])
      ≡ parse_loop s (at quoted args opt [])
unfolding parse_loop switch
first-quote args opt s h = rw h refl

-- A value in quotes.
quoted-special :
    (args : Args) (opt c : ℕ) (v s : Bytes)
    → parse_loop (b'\\' ∷ c ∷ s) (at quoted args opt v)
      ≡ parse_loop s (at quoted args opt ((v ++ b'\\' ∷ []) ++ c ∷ []))
unfolding parse_loop switch
quoted-special args opt c v s = refl

quoted-plain :
    (args : Args) (opt c : ℕ) (v s : Bytes)
    → (c == b'\\') ≡ false
    → (c == b'"') ≡ false
    → parse_loop (c ∷ s) (at quoted args opt v) ≡ parse_loop s (at quoted args opt (v ++ c ∷ []))
unfolding parse_loop switch
quoted-plain args opt c v s back quote = rw (back, quote) refl

pub quoted-text :
    (args : Args) (opt : ℕ) (v w s : Bytes)
    → parse_loop (escaped w ++ s) (at quoted args opt v)
      ≡ parse_loop s (at quoted args opt (v ++ escaped w))
quoted-text args opt v [] s =
    unfold escaped in ap (λ u. parse_loop s (at quoted args opt u)) (sym (append-nil v))
quoted-text args opt v (c ∷ w) s = elim (Bool-cases ((c == b'\\') || (c == b'"'))) [
  | inl special ↦
      let text = escaped-special c w special in
      let all : ((v ++ b'\\' ∷ []) ++ c ∷ []) ++ escaped w ≡ v ++ escaped (c ∷ w) =
        append_assoc (v ++ b'\\' ∷ []) (c ∷ []) (escaped w)
        ∙ append_assoc v (b'\\' ∷ []) (c ∷ escaped w)
        ∙ ap (λ u. v ++ u) (sym text) in
      ap (λ u. parse_loop (u ++ s) (at quoted args opt v)) text
      ∙ quoted-special args opt c v (escaped w ++ s)
      ∙ quoted-text args opt ((v ++ b'\\' ∷ []) ++ c ∷ []) w s
      ∙ ap (λ u. parse_loop s (at quoted args opt u)) all
  | inr plain ↦
      let text = escaped-plain c w plain in
      let back : (c == b'\\') ≡ false = ground (arith, plain) in
      let quote : (c == b'"') ≡ false = ground (arith, plain) in
      let all : (v ++ c ∷ []) ++ escaped w ≡ v ++ escaped (c ∷ w) =
        append_assoc v (c ∷ []) (escaped w) ∙ ap (λ u. v ++ u) (sym text) in
      ap (λ u. parse_loop (u ++ s) (at quoted args opt v)) text
      ∙ quoted-plain args opt c v (escaped w ++ s) back quote
      ∙ quoted-text args opt (v ++ c ∷ []) w s
      ∙ ap (λ u. parse_loop s (at quoted args opt u)) all
]

pub quoted-end :
    (args : Args) (opt : ℕ) (w s : Bytes)
    → parse_loop (b'"' ∷ s) (at quoted args opt (escaped w))
      ≡ settle args
          (store args (opt_index opt) w)
          (λ args'. parse_loop s (at skip_char args' opt (escaped w)))
unfolding parse_loop switch
quoted-end args opt w s =
    let (count, bound, undone) = stripcslashes-escaped [] w in
    settle-quoted args opt (escaped w) s _
    ∙ ap
        (λ u.
          settle args (store args (opt_index opt) u)
            (λ args'. parse_loop s (at skip_char args' opt (escaped w))))
        (ap (λ r. r.0) undone)

-- The byte behind a quoted value.
pub skip_char-space :
    (args : Args) (opt : ℕ) (v s : Bytes)
    → parse_loop (b' ' ∷ s) (at skip_char args opt v) ≡ parse_loop s (at normal args opt v)
unfolding parse_loop switch
skip_char-space args opt v s = refl

pub skip_char-nul :
    (args : Args) (opt : ℕ) (v : Bytes)
    → parse_loop [] (at skip_char args opt v) ≡ ok (error_ok, args)
unfolding parse_loop switch finish
skip_char-nul args opt v = refl
