-- ===== src/Xdebug/Dbgp/Answer/Commands.antt =====
-- The commands of the protocol: which there are, which go on or stop, and which may be used while the
-- script is stopping.
use saphire.Prelude.{
  ℕ, ◌≡◌, refl, sym, ap, ◌∙◌, inl, inr, Bool, true, false, not, ◌&&◌, ◌||◌, Option, none, some,
  List, [], ◌∷◌, map, arith, subst, ◌==◌, ==_iff, if◌then◌else◌, Bool-cases,
}
use saphire.Clib.{Bytes, codes, bytes_eq}
use saphire.Clib.Text.{eq_of_bytes_eq}
use saphire.Xdebug.Dbgp.Answer.{Command, dbgp_commands, lookup_from, lookup_cmd}

-- The names of the commands.
abbrev pub command_names : List Bytes
command_names =
    codes "breakpoint_get"
    ∷ codes "breakpoint_list"
    ∷ codes "breakpoint_remove"
    ∷ codes "breakpoint_set"
    ∷ codes "breakpoint_update"
    ∷ codes "context_get"
    ∷ codes "context_names"
    ∷ codes "eval"
    ∷ codes "feature_get"
    ∷ codes "feature_set"
    ∷ codes "typemap_get"
    ∷ codes "property_get"
    ∷ codes "property_set"
    ∷ codes "property_value"
    ∷ codes "source"
    ∷ codes "stack_depth"
    ∷ codes "stack_get"
    ∷ codes "status"
    ∷ codes "stderr"
    ∷ codes "stdout"
    ∷ codes "run"
    ∷ codes "step_into"
    ∷ codes "step_out"
    ∷ codes "step_over"
    ∷ codes "stop"
    ∷ codes "detach"
    ∷ codes "xcmd_profiler_name_get"
    ∷ codes "xcmd_get_executable_lines"
    ∷ []

abbrev pub is_in : List Bytes → Bytes → Bool
is_in [] cmd = false
is_in (name ∷ names) cmd = bytes_eq name cmd || is_in names cmd

-- What a command's execution returns: 1 for those that go on, 2 for those that end the script, else 0.
abbrev pub cont_of : Bytes → ℕ
cont_of cmd =
    if is_in (codes "run" ∷ codes "step_into" ∷ codes "step_out" ∷ codes "step_over" ∷ []) cmd
    then 1
    else if is_in (codes "stop" ∷ codes "detach" ∷ []) cmd
    then 2
    else 0

-- The commands that may be used while the script is stopping.
abbrev pub after_stop : List Bytes
after_stop =
    codes "breakpoint_list"
    ∷ codes "context_names"
    ∷ codes "feature_get"
    ∷ codes "typemap_get"
    ∷ codes "status"
    ∷ codes "stop"
    ∷ codes "xcmd_profiler_name_get"
    ∷ []

abbrev is_found : Option Command → Bool
is_found none = false
is_found (some command) = true

lookup_from-is_in :
    (commands : List Command) (cmd : Bytes)
    → is_in (map (λ (command : Command). command.name) commands) cmd
      ≡ is_found (lookup_from commands cmd)
unfolding lookup_from
lookup_from-is_in [] cmd = refl
lookup_from-is_in (ptr ∷ commands) cmd = elim (Bool-cases (bytes_eq ptr.name cmd)) [
  | inl here ↦ rw (here, lookup_from) refl
  | inr away ↦ rw (away, lookup_from) (lookup_from-is_in commands cmd)
]

-- The table finds exactly the commands that there are.
pub lookup_cmd-none : (cmd : Bytes) → lookup_cmd cmd ≡ none → is_in command_names cmd ≡ false
unfolding lookup_cmd
lookup_cmd-none cmd h = lookup_from-is_in dbgp_commands cmd ∙ ap is_found h

-- An entry of the table is what the lists say of its name.
abbrev pub IsAsListed : Command → Type 0
IsAsListed command =
    (command.cont ≡ cont_of command.name) × (command.post_mortem ≡ is_in after_stop command.name)

abbrev same : Bool → Bool → Bool
same true b = b
same false b = not b

same-≡ : (a b : Bool) → same a b ≡ true → a ≡ b
same-≡ true b h = sym h
same-≡ false b h = ground arith

abbrev is_as_listed : Command → Bool
is_as_listed command =
    command.cont == cont_of command.name && same command.post_mortem (is_in after_stop command.name)

abbrev all_as_listed : List Command → Bool
all_as_listed [] = true
all_as_listed (command ∷ commands) = is_as_listed command && all_as_listed commands

as_listed : all_as_listed dbgp_commands ≡ true
unfolding bytes_eq
as_listed = refl

and_split : (a b : Bool) → (a && b) ≡ true → (a ≡ true) × (b ≡ true)
and_split true b h = (refl, h)
and_split false b h = ground arith

is_as_listed-IsAsListed : (command : Command) → is_as_listed command ≡ true → IsAsListed command
is_as_listed-IsAsListed command h =
    let (cont, late) =
      and_split (command.cont == cont_of command.name)
        (same command.post_mortem (is_in after_stop command.name)) h in
    (
      (==_iff command.cont (cont_of command.name)).0 cont,
      same-≡ command.post_mortem (is_in after_stop command.name) late,
    )

-- The command that is found has the name, and is an entry of the table.
lookup_from-some :
    (commands : List Command) (cmd : Bytes) (command : Command)
    → all_as_listed commands ≡ true
    → lookup_from commands cmd ≡ some command
    → (command.name ≡ cmd) × IsAsListed command
unfolding lookup_from
lookup_from-some [] cmd command listed h = cc
lookup_from-some (ptr ∷ commands) cmd command listed h =
    let (first, others) = and_split (is_as_listed ptr) (all_as_listed commands) listed in
    elim (Bool-cases (bytes_eq ptr.name cmd)) [
      | inl here ↦
          let k : some ptr ≡ some command = rw (here, lookup_from) at h in
          let found : ptr ≡ command = cc in
          subst (λ (p : Command). (p.name ≡ cmd) × IsAsListed p) found
            (eq_of_bytes_eq ptr.name cmd here, is_as_listed-IsAsListed ptr first)
      | inr away ↦ lookup_from-some commands cmd command others (rw (away, lookup_from) at h)
    ]

pub lookup_cmd-some :
    (cmd : Bytes) (command : Command)
    → lookup_cmd cmd ≡ some command
    → (command.name ≡ cmd)
      × (command.cont ≡ cont_of cmd)
      × (command.post_mortem ≡ is_in after_stop cmd)
      × (is_in command_names cmd ≡ true)
unfolding lookup_cmd
lookup_cmd-some cmd command h =
    let (name, (cont, late)) = lookup_from-some dbgp_commands cmd command as_listed h in
    (
      name,
      cont ∙ ap cont_of name,
      late ∙ ap (is_in after_stop) name,
      lookup_from-is_in dbgp_commands cmd ∙ ap is_found h,
    )
