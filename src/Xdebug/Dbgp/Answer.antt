-- ===== src/Xdebug/Dbgp/Answer.antt =====
-- xdebug_handler_dbgp.c: the answer to a command.
pub mod Cases
pub mod Commands
pub mod Framed
use saphire.Prelude.{
  ℕ, suc, ◌+◌, ◌-◌, Bool, true, false, not, ◌&&◌, ◌||◌, Option, none, some, List, [], ◌∷◌, ◌++◌,
  ltb, ◌==◌, if◌then◌else◌, get_elem?, length,
}
use saphire.Prelude.Int.{ℤ, pos, negsuc}
use saphire.Clib.{
  Bytes, codes, bytes_eq, Run, ok, fault, null_pointer, out_of_bounds, uninitialised, ◌>>=◌,
}
use saphire.Clib.Decimal.{decimal}
use saphire.Xdebug.Str.{XdebugStr, Buffer, memory, str_new, str_add, str_addl}
use saphire.Xdebug.Useful.Url.{c_str}
use saphire.Xdebug.Xml.{Xml, node_init, add_attribute, add_child, add_text_ex, return_node}
use saphire.Xdebug.Dbgp.{
  Code, error_ok, error_parse, error_dup_arg, error_invalid_args, error_unimplemented,
  error_command_unavailable, Args, parse_cmd,
}

pub data Status : Type 0 where
  status_starting status_stopping status_stopped status_running status_break : Status
  status_detached : Status

pub data Reason : Type 0 where
  reason_ok reason_error reason_aborted reason_exception : Reason

-- The number of a code and its message in xdebug_error_codes.
abbrev pub number : Code → ℕ
number error_ok = 0
number error_parse = 1
number error_dup_arg = 2
number error_invalid_args = 3
number error_unimplemented = 4
number error_command_unavailable = 5

abbrev pub message_of : Code → Bytes
message_of error_ok = codes "no error"
message_of error_parse = codes "parse error in command"
message_of error_dup_arg = codes "duplicate arguments in command"
message_of error_invalid_args = codes "invalid or missing options"
message_of error_unimplemented = codes "unimplemented command"
message_of error_command_unavailable = codes "command is not available"

-- xdebug_dbgp_cmd without its handler; whether flags has XDEBUG_DBGP_POST_MORTEM.
pub record Command : Type 0 where
  pub name : Bytes
  pub cont : ℕ
  pub post_mortem : Bool

abbrev func : Bytes → Bool → Command
func name flags = record { name = name; cont = 0; post_mortem = flags }

abbrev cont_func : Bytes → Bool → Command
cont_func name flags = record { name = name; cont = 1; post_mortem = flags }

abbrev stop_func : Bytes → Bool → Command
stop_func name flags = record { name = name; cont = 2; post_mortem = flags }

abbrev pub dbgp_commands : List Command
dbgp_commands =
    func (codes "breakpoint_get") false
    ∷ func (codes "breakpoint_list") true
    ∷ func (codes "breakpoint_remove") false
    ∷ func (codes "breakpoint_set") false
    ∷ func (codes "breakpoint_update") false
    ∷ func (codes "context_get") false
    ∷ func (codes "context_names") true
    ∷ func (codes "eval") false
    ∷ func (codes "feature_get") true
    ∷ func (codes "feature_set") false
    ∷ func (codes "typemap_get") true
    ∷ func (codes "property_get") false
    ∷ func (codes "property_set") false
    ∷ func (codes "property_value") false
    ∷ func (codes "source") false
    ∷ func (codes "stack_depth") false
    ∷ func (codes "stack_get") false
    ∷ func (codes "status") true
    ∷ func (codes "stderr") false
    ∷ func (codes "stdout") false
    ∷ cont_func (codes "run") false
    ∷ cont_func (codes "step_into") false
    ∷ cont_func (codes "step_out") false
    ∷ cont_func (codes "step_over") false
    ∷ stop_func (codes "stop") true
    ∷ stop_func (codes "detach") false
    ∷ func (codes "xcmd_profiler_name_get") true
    ∷ func (codes "xcmd_get_executable_lines") false
    ∷ []

-- The loop of lookup_cmd.
unfoldable pub lookup_from : List Command → Bytes → Option Command
unfolding bytes_eq
lookup_from [] cmd = none
lookup_from (ptr ∷ commands) cmd =
    let rest = lookup_from commands cmd in if bytes_eq ptr.name cmd then some ptr else rest

unfoldable pub lookup_cmd : Bytes → Option Command
unfolding lookup_from
lookup_cmd cmd = lookup_from dbgp_commands cmd

-- The error element, with ADD_REASON_MESSAGE.
unfoldable pub error_node : Code → Xml
unfolding node_init add_attribute add_child add_text_ex decimal
error_node code =
    let error =
      add_attribute (node_init (codes "error")) (codes "code") (some (decimal (number code) [])) in
    add_child error (add_text_ex (node_init (codes "message")) (message_of code) false)

-- The globals that the answer reads and writes, and the rest of the engine's state.
pub record Globals (E : Type 0) : Type 0 where
  pub status : Status
  pub reason : Reason
  pub lastcmd : Option Bytes
  pub lasttransid : Option Bytes
  pub engine : E

abbrev pub is_stopping : Status → Bool
is_stopping status_stopping = true
is_stopping status_starting = false
is_stopping status_stopped = false
is_stopping status_running = false
is_stopping status_break = false
is_stopping status_detached = false

-- CMD_OPTION_CHAR('i'), NULL where the option is not set; what a C string shows of it.
unfoldable pub transaction_id : Args → Option Bytes
unfolding c_str
transaction_id args = elim (get_elem? args 8) [
  | none ↦ none
  | some none ↦ none
  | some (some v) ↦ some (c_str v)
]

-- The element that the answer is put into, with the command's name and the transaction's number.
unfoldable pub with_command : Option Bytes → Xml → Xml
unfolding add_attribute
with_command none retval = retval
with_command (some cmd) retval = add_attribute retval (codes "command") (some cmd)

-- The globals before the test of the status.
unfoldable pub begin_command : {E : Type 0} → Command → Bytes → Globals E → Globals E
begin_command command id g =
    let g' =
      if command.cont == 0 then g else record g { status = status_running; reason = reason_ok } in
    record g' { lastcmd = some command.name; lasttransid = some id }

-- The handlers of the commands, by their names: they work on the engine.
module _ {E : Type 0} (handler : Bytes → Args → Xml → Globals E → Run (Xml × Globals E)) where
  -- The command that was found.
  unfoldable pub run_command : Command → Args → Bytes → Xml → Globals E → Run (ℤ × Xml × Globals E)
  unfolding begin_command error_node add_child
  run_command command args id retval g =
      let g' = begin_command command id g in
      if not (is_stopping g'.status) || command.post_mortem
      then (handler command.name args retval g' >>= (λ r. ok (pos command.cont, r.0, r.1)))
      else ok (negsuc 0, add_child retval (error_node error_command_unavailable), g')

  -- What follows a parse without an error.
  unfoldable pub dispatch :
      Option Bytes → Args → Bytes → Xml → Globals E → Run (ℤ × Xml × Globals E)
  unfolding lookup_cmd run_command error_node add_child
  dispatch none args id retval g = fault null_pointer
  dispatch (some cmd) args id retval g = elim (lookup_cmd cmd) [
    | none ↦ ok (negsuc 0, add_child retval (error_node error_unimplemented), g)
    | some command ↦ run_command command args id retval g
  ]

  -- What follows the call of xdebug_dbgp_parse_cmd.
  unfoldable pub answer : Code → Option Bytes → Args → Xml → Globals E → Run (ℤ × Xml × Globals E)
  unfolding transaction_id with_command error_node add_attribute add_child dispatch
  answer res cmd args retval g = elim (transaction_id args) [
    | none ↦ ok (pos 0, add_child (with_command cmd retval) (error_node error_invalid_args), g)
    | some id ↦
        let retval' = add_attribute (with_command cmd retval) (codes "transaction_id") (some id) in
        elim res [
          | error_ok ↦ dispatch cmd args id retval' g
          | error_parse ↦ ok (pos 0, add_child retval' (error_node error_parse), g)
          | error_dup_arg ↦ ok (pos 0, add_child retval' (error_node error_dup_arg), g)
          | error_invalid_args ↦ ok (pos 0, add_child retval' (error_node error_invalid_args), g)
          | error_unimplemented ↦ ok (pos 0, add_child retval' (error_node error_unimplemented), g)
          | error_command_unavailable ↦
              ok (pos 0, add_child retval' (error_node error_command_unavailable), g)
        ]
  ]

  -- xdebug_dbgp_parse_option, without the log file.
  unfoldable pub parse_option : Bytes → Xml → Globals E → Run (ℤ × Xml × Globals E)
  unfolding parse_cmd answer
  parse_option line retval g = do (res, cmd, args) ← parse_cmd line; answer res cmd args retval g

-- A C string read from memory.
unfoldable pub read_string : Buffer → Run Bytes
read_string [] = fault out_of_bounds
read_string (none ∷ b) = fault uninitialised
read_string (some c ∷ b) =
    let rest = read_string b in if c == 0 then ok [] else (rest >>= (λ s. ok (c ∷ s)))

unfoldable pub read_text : Option Buffer → Run Bytes
unfolding read_string
read_text none = fault null_pointer
read_text (some b) = read_string b

abbrev pub header : Bytes
header = codes "<?xml version=\"1.0\" encoding=\"iso-8859-1\"?>" ++ b'\n' ∷ []

module _ (str_to_str : Bytes → Bytes → Bytes → Bytes) (base64_encode : Bytes → Bytes) where
  -- make_message, without the log file, for a message of fewer than 2 ^ 31 bytes, as `%d` prints its
  -- length; sizeof counts the header's NUL.
  unfoldable pub make_message : Xml → Run XdebugStr
  unfolding return_node str_add str_addl str_new decimal read_text
  make_message message = do
    xml_message ← return_node str_to_str base64_encode message str_new
    ret₁ ← str_add str_new (decimal (xml_message.l + (length header + 1) - 1) [])
    ret₂ ← str_addl ret₁ (memory (0 ∷ [])) 1
    ret₃ ← str_add ret₂ header
    text ← read_text xml_message.d
    ret₄ ← str_add ret₃ text
    str_addl ret₄ (memory (0 ∷ [])) 1
