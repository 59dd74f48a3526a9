-- ===== src/Xdebug/Dbgp/Answer/Cases.antt =====
-- The answer to a command that a client writes.
use saphire.Prelude.{
  ℕ, ◌<◌, ◌≡◌, refl, ap, ◌∙◌, ◌⊎◌, inl, inr, Bool, true, false, not, ◌||◌, none, some, List, [],
  ◌∷◌, ◌++◌, arith, ◌==◌, if◌then◌else◌, get_elem?, Bool-cases, Option-cases,
}
use saphire.Prelude.Int.{ℤ, pos, negsuc}
use saphire.Clib.{Bytes, codes, Run, ok, ◌>>=◌}
use saphire.Clib.Ctype.{strstr, starts_with}
use saphire.Clib.Decimal.{decimal}
use saphire.Clib.Text.{Lacks}
use saphire.Xdebug.Useful.Url.{c_str}
use saphire.Xdebug.Xml.{
  Xml, null, node, node_init, add_attribute, add_child, add_text_ex, text_node,
}
use saphire.Xdebug.Dbgp.{
  Args, error_ok, error_invalid_args, error_unimplemented, error_command_unavailable, parse_cmd,
}
use saphire.Xdebug.Dbgp.Given.{Given}
use saphire.Xdebug.Dbgp.Written.{written, AreGiven, AreDistinct, lookup, parse_cmd-written}
use saphire.Xdebug.Dbgp.Answer.{
  Status, status_starting, status_stopping, status_stopped, status_running, status_break,
  status_detached, reason_ok, Command, Globals, is_stopping, lookup_cmd, error_node, transaction_id,
  with_command, begin_command, run_command, dispatch, answer, parse_option,
}
use saphire.Xdebug.Dbgp.Answer.Commands.{
  command_names, is_in, cont_of, after_stop, lookup_cmd-none, lookup_cmd-some,
}

-- The error element with a number and its message.
abbrev pub error_element : Bytes → Bytes → Xml
error_element number text =
    node (codes "error") none (record { name = codes "code"; value = some number } ∷ [])
      (node (codes "message") (some (record { text = text; encode = false })) [] null null) null

abbrev pub invalid_options : Xml
invalid_options = error_element (codes "3") (codes "invalid or missing options")

abbrev pub unimplemented : Xml
unimplemented = error_element (codes "4") (codes "unimplemented command")

abbrev pub not_available : Xml
not_available = error_element (codes "5") (codes "command is not available")

abbrev pub script_ends : Status → Bool
script_ends status_starting = false
script_ends status_stopping = true
script_ends status_stopped = false
script_ends status_running = false
script_ends status_break = false
script_ends status_detached = false

-- The globals that remember a command and its transaction; one that goes on or stops sets the status.
abbrev pub remembered : {E : Type 0} → ℕ → Bytes → Bytes → Globals E → Globals E
remembered cont name id g = record {
  status = if cont == 0 then g.status else status_running;
  reason = if cont == 0 then g.reason else reason_ok;
  lastcmd = some name;
  lasttransid = some id;
  engine = g.engine;
}

error_node-invalid : error_node error_invalid_args ≡ invalid_options
unfolding error_node node_init add_attribute add_child add_text_ex text_node strstr starts_with
    c_str decimal
error_node-invalid = refl

error_node-unimplemented : error_node error_unimplemented ≡ unimplemented
unfolding error_node node_init add_attribute add_child add_text_ex text_node strstr starts_with
    c_str decimal
error_node-unimplemented = refl

error_node-unavailable : error_node error_command_unavailable ≡ not_available
unfolding error_node node_init add_attribute add_child add_text_ex text_node strstr starts_with
    c_str decimal
error_node-unavailable = refl

is_stopping-script_ends : (status : Status) → is_stopping status ≡ script_ends status
is_stopping-script_ends status_starting = refl
is_stopping-script_ends status_stopping = refl
is_stopping-script_ends status_stopped = refl
is_stopping-script_ends status_running = refl
is_stopping-script_ends status_break = refl
is_stopping-script_ends status_detached = refl

module _ {E : Type 0} (handler : Bytes → Args → Xml → Globals E → Run (Xml × Globals E)) where
  -- The command's handler on the globals that remember the command, or the error.
  abbrev pub executed :
      Bytes → ℕ → Bool → Args → Bytes → Xml → Globals E → Run (ℤ × Xml × Globals E)
  executed name cont late args id retval g =
      let g' = remembered cont name id g in
      if not (cont == 0) || not (script_ends g.status) || late
      then (handler name args retval g' >>= (λ r. ok (pos cont, r.0, r.1)))
      else ok (negsuc 0, add_child retval not_available, g')

  -- The answer to a command with a transaction.
  abbrev pub answered : Bytes → Args → Bytes → Xml → Globals E → Run (ℤ × Xml × Globals E)
  answered cmd args id retval g =
      if is_in command_names cmd
      then executed cmd (cont_of cmd) (is_in after_stop cmd) args id retval g
      else ok (negsuc 0, add_child retval unimplemented, g)

  run_command-executed :
      (command : Command) (args : Args) (id : Bytes) (retval : Xml) (g : Globals E)
      → run_command handler command args id retval g
        ≡ executed command.name command.cont command.post_mortem args id retval g
  unfolding run_command begin_command
  run_command-executed command args id retval g = elim (Bool-cases (command.cont == 0)) [
    | inl zero_cont ↦
        rw
          (
            zero_cont,
            run_command,
            begin_command,
            is_stopping-script_ends g.status,
            error_node-unavailable,
          )
          refl
    | inr goes_on ↦ rw (goes_on, run_command, begin_command) refl
  ]

  parse_option-parsed :
      (line cmd : Bytes) (args : Args) (retval : Xml) (g : Globals E)
      → parse_cmd line ≡ ok (error_ok, some cmd, args)
      → parse_option handler line retval g ≡ answer handler error_ok (some cmd) args retval g
  unfolding parse_option
  parse_option-parsed line cmd args retval g h = rw (parse_option, h) refl

  -- The answer without an option i, and with one.
  answer-missing :
      (cmd : Bytes) (args : Args) (retval : Xml) (g : Globals E)
      → get_elem? args 8 ≡ some none
      → answer handler error_ok (some cmd) args retval g
        ≡ ok (
          pos 0,
          add_child (add_attribute retval (codes "command") (some cmd)) invalid_options,
          g,
        )
  unfolding answer transaction_id with_command
  answer-missing cmd args retval g h = rw (answer, transaction_id, h, error_node-invalid) refl

  answer-found :
      (cmd : Bytes) (args : Args) (id : Bytes) (retval : Xml) (g : Globals E)
      → get_elem? args 8 ≡ some (some id)
      → answer handler error_ok (some cmd) args retval g
        ≡ dispatch handler
            (some cmd)
            args
            (c_str id)
            (add_attribute
              (add_attribute retval (codes "command") (some cmd))
              (codes "transaction_id")
              (some (c_str id)))
            g
  unfolding answer transaction_id with_command
  answer-found cmd args id retval g h = rw (answer, transaction_id, h) refl

  dispatch-answered :
      (cmd : Bytes) (args : Args) (id : Bytes) (retval : Xml) (g : Globals E)
      → dispatch handler (some cmd) args id retval g ≡ answered cmd args id retval g
  unfolding dispatch
  dispatch-answered cmd args id retval g = elim (Option-cases (lookup_cmd cmd)) [
    | inl unknown ↦
        rw (dispatch, unknown, lookup_cmd-none cmd unknown, error_node-unimplemented) refl
    | inr (command, known) ↦
        let (name, cont, late, listed) = lookup_cmd-some cmd command known in
        rw (dispatch, known, listed)
          (run_command-executed command args id retval g
            ∙ ap (λ n. executed n command.cont command.post_mortem args id retval g) name
            ∙ ap (λ n. executed cmd n command.post_mortem args id retval g) cont
            ∙ ap (λ b. executed cmd (cont_of cmd) b args id retval g) late)
  ]

  -- For a command and options that xdebug_dbgp_parse_cmd accepts as the client writes them,
  -- xdebug_dbgp_parse_option adds the command's name to the answer; and where the option i is not given,
  -- it adds the error 3 of invalid options, returns 0 and changes no global. Else it adds the value of i, up
  -- to a NUL, as the transaction's number; and for a name that is none of the protocol's 28 commands it
  -- adds the error 4 of an unimplemented command, returns -1 and changes no global. Another command is
  -- remembered with its transaction, the status becomes running and the reason ok if it is one of those
  -- that go on or stop, and no other global changes; if it is one of these, or the script is not stopping,
  -- or it may be used then, its handler is run on the values that the client gave, and the result is 1 for
  -- run, step_into, step_out and step_over, 2 for stop and detach, and else 0; if not, the error 5 says that
  -- it is not available, and the result is -1.
  pub parse_option-written :
      (c : ℕ) (cmd : Bytes) (gs : List Given) (retval : Xml) (g : Globals E)
      → Lacks b' ' (c ∷ cmd)
      → Lacks 0 (c ∷ cmd)
      → AreGiven gs
      → AreDistinct gs
      → let line = c ∷ cmd ++ written gs in
        let named = add_attribute retval (codes "command") (some (c ∷ cmd)) in
        (args : Args) × ((i : ℕ) → i < 27 → get_elem? args i ≡ some (lookup i gs))
        × (((lookup 8 gs ≡ none)
              × (parse_option handler line retval g
                  ≡ ok (pos 0, add_child named invalid_options, g)))
            ⊎ ((id : Bytes) × (lookup 8 gs ≡ some id)
                × (parse_option handler line retval g
                    ≡ answered
                        (c ∷ cmd)
                        args
                        (c_str id)
                        (add_attribute named (codes "transaction_id") (some (c_str id)))
                        g)))
  parse_option-written c cmd gs retval g h nul given distinct =
      let (args, parsed, values) = parse_cmd-written c cmd gs h nul given distinct in
      let run = parse_option-parsed (c ∷ cmd ++ written gs) (c ∷ cmd) args retval g parsed in
      let at_8 = values 8 (omega arith) in
      (
        args,
        values,
        elim (Option-cases (lookup 8 gs)) [
          | inl missing ↦
              inl (missing, run ∙ answer-missing (c ∷ cmd) args retval g (at_8 ∙ ap some missing))
          | inr (id, found) ↦ inr (
            id,
            found,
            run
                ∙ answer-found (c ∷ cmd) args id retval g (at_8 ∙ ap some found)
                ∙ dispatch-answered (c ∷ cmd) args (c_str id) _ g,
          )
        ],
      )
