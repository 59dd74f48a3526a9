-- ===== src/Xdebug/Dbgp.antt =====
-- stage1/interpreter-tracing/TE_xdebug/xdebug_handler_dbgp.c: how the debugger reads a command.
pub mod Accepts
pub mod Given
pub mod Written
pub mod Refused
pub mod Answer
use saphire.Prelude.{
  ℕ, ◌+◌, ◌-◌, Bool, true, false, not, ◌&&◌, ◌||◌, Option, none, some, List, [], ◌∷◌, ◌++◌, leb,
  ◌==◌, if◌then◌else◌, get_elem?, set, replicate,
}
use saphire.Clib.{Bytes, Run, ok, fault, out_of_bounds, strchr_cut, ◌>>=◌}
use saphire.Xdebug.Compat.{stripcslashes}

-- XDEBUG_ERROR_OK and the others.
pub data Code : Type 0 where
  error_ok error_parse error_dup_arg error_invalid_args error_unimplemented : Code
  error_command_unavailable : Code

-- xdebug_dbgp_arg: the texts of the 27 options.
abbrev pub Args : Type 0
Args = List (Option Bytes)

abbrev pub no_args : Args
no_args = replicate 27 none

-- The constants for the state machine.
pub data State : Type 0 where
  normal quoted opt_follows sep_follows value_follows_first_char value_follows skip_char : State
  escaped_char_follows : State

-- The variables of the loop; `value` is the text from value_begin up to ptr.
pub record Parser : Type 0 where
  pub state : State
  pub args : Args
  pub opt : ℕ
  pub charescaped : Bool
  pub value : Bytes

-- How one round ends: break, or the jump to one of the labels at the end.
pub data Round : Type 0 where
  next : Parser → Round
  stop : Code → Round

-- opt_index; none for one below 0.
unfoldable pub opt_index : ℕ → Option ℕ
opt_index opt = if opt == b'-' then some 26 else if leb b'a' opt then some (opt - b'a') else none

-- `if (!args->value[opt_index])`, with the value stored; none where there is one.
unfoldable pub store : Args → Option ℕ → Bytes → Run (Option Args)
store args none v = fault out_of_bounds
store args (some i) v = elim (get_elem? args i) [
  | none ↦ fault out_of_bounds
  | some none ↦ ok (some (set args i (some v)))
  | some (some w) ↦ ok none
]

-- What follows a value: the next state, or duplicate_opts.
unfoldable pub after_value : Parser → State → Option Args → Round
after_value p state none = stop error_dup_arg
after_value p state (some args) = next (record p { state = state; args = args })

-- The switch, on the byte at ptr.
unfoldable pub switch : State → ℕ → Parser → Run Round
unfolding opt_index store after_value stripcslashes
switch normal c p =
    ok (if not (c == b'-') then stop error_parse else next (record p { state = opt_follows }))
switch opt_follows c p = ok (next (record p { opt = c; state = sep_follows }))
switch sep_follows c p = ok (
    if not (c == b' ')
    then stop error_parse
    else next (record p { state = value_follows_first_char; value = [] }))
switch value_follows_first_char c p = ok (
    next (
      if (c == b'"') && not (p.opt == b'-')
      then record p { state = quoted; value = [] }
      else record p { state = value_follows; value = p.value ++ c ∷ [] }))
switch value_follows c p =
    if ((c == b' ') && not (p.opt == b'-')) || (c == 0)
    then (store p.args (opt_index p.opt) p.value >>= (λ stored. ok (after_value p normal stored)))
    else ok (next (record p { value = p.value ++ c ∷ [] }))
switch quoted c p =
    if c == b'\\'
    then ok (next (record p { state = escaped_char_follows; value = p.value ++ c ∷ [] }))
    else if c == b'"'
    then (if p.charescaped
        then ok (next (record p { charescaped = false; value = p.value ++ c ∷ [] }))
        else (store p.args (opt_index p.opt) (stripcslashes p.value).0
            >>= (λ stored. ok (after_value p skip_char stored))))
    else ok (next (record p { value = p.value ++ c ∷ [] }))
switch skip_char c p = ok (next (record p { state = normal }))
switch escaped_char_follows c p = ok (next (record p { state = quoted; value = p.value ++ c ∷ [] }))

-- What follows the round of the NUL.
unfoldable pub finish : Args → Round → Run (Code × Args)
finish args (next p) = ok (error_ok, p.args)
finish args (stop code) = ok (code, args)

-- The do loop, on what stands behind the first space.
unfoldable pub parse_loop : Bytes → Parser → Run (Code × Args)
unfolding switch finish
parse_loop [] p = switch p.state 0 p >>= finish p.args
parse_loop (c ∷ s) p = do
  round ← switch p.state c p
  elim round [ stop code ↦ ok (code, p.args) | next p' ↦ parse_loop s p' ]

-- The variables before the loop.
abbrev pub start : Parser
start = record { state = normal; args = no_args; opt = b' '; charescaped = false; value = [] }

-- The two branches of `if (!ptr)`.
unfoldable pub parse_cut : Bytes × Option Bytes → Run (Code × Option Bytes × Args)
unfolding parse_loop
parse_cut ([], none) = ok (error_parse, none, no_args)
parse_cut (c ∷ line, none) = ok (error_ok, some (c ∷ line), no_args)
parse_cut (cmd, some rest) = do (code, args) ← parse_loop rest start; ok (code, some cmd, args)

-- xdebug_dbgp_parse_cmd: the result, the command's name and its arguments.
unfoldable pub parse_cmd : Bytes → Run (Code × Option Bytes × Args)
unfolding strchr_cut parse_cut
parse_cmd line = parse_cut (strchr_cut b' ' line)
