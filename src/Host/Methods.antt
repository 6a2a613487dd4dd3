-- ===== src/Host/Methods.antt =====
-- src/host.rs: the registries of a host runtime, its user commands, and how it prepares a command.
use vim_script.Prelude.{
  ℕ, zero, suc, Bool, true, false, not, ◌&&◌, ◌||◌, Option, none, some, List, [], ◌∷◌, ◌++◌, Text,
  text, text_eq, text_lt, starts_with, if◌then◌else◌, is_some, find, store, erase,
}
use vim_script.Ast.{ExCommand, MapMode}
use vim_script.Integration.Keymaps.{CompiledMapping, resolve_mapping}
use vim_script.Runtime.Value.{Value}
use vim_script.Runtime.Error.{Result, ok, err, panic}
use vim_script.Runtime.Builtins.Strings.{split_whitespace}
use vim_script.Runtime.Vm.State.{Vm}
use vim_script.Host.{HostTarget, CommandRequest}
use vim_script.Host.UserCommands.{UserCommand, parse_user_command, expand, invalid_command}
use vim_script.Host.Dispatch.{
  Capability, capability_eq, allows, Arity, HostFunctionRegistration, CommandDefinition,
  HostRuntime,
}
use vim_script.Host.MapNames.{mapping_modes}
use vim_script.Host.Mappings.{handle_mapping}
use vim_script.Host.Autocommands.{handle_augroup, handle_autocmd}

unfoldable pub new_host : HostRuntime
new_host = record {
  capabilities = [];
  functions = [];
  commands = [];
  user_commands = [];
  keymaps = record { global = []; buffer_local = [] };
  events = record { handlers = [] };
  current_augroup = none;
  next_mapping_id = 0;
  next_event_handler_id = 0;
}

-- `CapabilitySet::grant` and `CapabilitySet::revoke`, with what they return.
unfoldable pub grant : Capability → List Capability → Bool × List Capability
grant c granted = (not (allows granted c), if allows granted c then granted else c ∷ granted)

unfoldable pub without_capability : Capability → List Capability → List Capability
without_capability c [] = []
without_capability c (d ∷ granted) =
    let rest = without_capability c granted in if capability_eq c d then rest else d ∷ rest

unfoldable pub revoke : Capability → List Capability → Bool × List Capability
unfolding without_capability
revoke c granted = (allows granted c, without_capability c granted)

unfoldable pub register_function : Text → Arity → List Capability → HostRuntime → HostRuntime
register_function name arity required h = record h {
  functions =
      store text_eq name
        (record {
          name = name;
          target = HostTarget.global;
          arity = arity;
          required_capabilities = required;
        })
        h.functions;
}

unfoldable pub register_command : CommandDefinition → HostRuntime → HostRuntime
register_command definition h = record h {
  commands = store text_eq definition.name definition h.commands;
}

unfoldable pub define_parsed :
    Bool → Result UserCommand → HostRuntime → Result (Unit {0}) × HostRuntime
unfolding invalid_command
define_parsed bang (ok definition) h =
    if is_some (find text_eq definition.name h.user_commands) && not bang
    then (
      err (invalid_command (text "E174") (text "command already exists: " ++ definition.name)),
      h,
    )
    else (
      ok tt,
      record h { user_commands = store text_eq definition.name definition h.user_commands },
    )
define_parsed bang (err e) h = (err e, h)
define_parsed bang panic h = (panic, h)

unfoldable pub define_user_command : ExCommand → HostRuntime → Result (Unit {0}) × HostRuntime
unfolding define_parsed parse_user_command
define_user_command command h = define_parsed command.bang (parse_user_command command) h

unfoldable pub remove_user_command : Text → HostRuntime → Bool × HostRuntime
remove_user_command name h = (
  is_some (find text_eq name h.user_commands),
  record h { user_commands = erase text_eq name h.user_commands },
)

unfoldable pub delete_named : Text → Bool × HostRuntime → Result (Unit {0}) × HostRuntime
unfolding invalid_command
delete_named name (true, h) = (ok tt, h)
delete_named name (false, h) =
    (err (invalid_command (text "E184") (text "no such user-defined command: " ++ name)), h)

unfoldable pub is_filled : List Text → Bool
is_filled [] = false
is_filled (w ∷ ws) = true

unfoldable pub delete_words : ExCommand → List Text → HostRuntime → Result (Unit {0}) × HostRuntime
unfolding delete_named remove_user_command is_filled invalid_command
delete_words command [] h =
    (err (invalid_command (text "E184") (text "user command name is required")), h)
delete_words command (name ∷ more) h =
    if command.bang || (is_some command.range || is_filled more)
    then (err (invalid_command (text "E488") (text "invalid :delcommand arguments")), h)
    else delete_named name (remove_user_command name h)

unfoldable pub delete_user_command : ExCommand → HostRuntime → Result (Unit {0}) × HostRuntime
unfolding delete_words split_whitespace
delete_user_command command h = delete_words command (split_whitespace command.arguments) h

unfoldable pub is_listed : Option Text → UserCommand → Bool
is_listed none u = true
is_listed (some prefix) u = starts_with u.name prefix

-- `sort_by` by name: a command goes before the first that has a greater name.
unfoldable pub insert_by_name : UserCommand → List UserCommand → List UserCommand
insert_by_name u [] = u ∷ []
insert_by_name u (v ∷ vs) =
    let rest = insert_by_name u vs in if text_lt v.name u.name then v ∷ rest else u ∷ v ∷ vs

unfoldable pub listed_from : Option Text → List (Text × UserCommand) → List UserCommand
unfolding is_listed insert_by_name
listed_from prefix [] = []
listed_from prefix ((name, u) ∷ rest) =
    let more = listed_from prefix rest in if is_listed prefix u then insert_by_name u more else more

unfoldable pub list_user_commands : Option Text → HostRuntime → List UserCommand
unfolding listed_from
list_user_commands prefix h = listed_from prefix h.user_commands

-- The result of a handler, `some` of it.
unfoldable pub handled : Result (Unit {0}) × HostRuntime → Option (Result (Unit {0})) × HostRuntime
handled (r, h) = (some r, h)

unfoldable pub handle_registration_command :
    CommandRequest → HostRuntime → Option (Result (Unit {0})) × HostRuntime
unfolding handled handle_augroup handle_autocmd handle_mapping mapping_modes
handle_registration_command request h =
    let name = request.command.name in
    if text_eq name (text "augroup")
    then handled (handle_augroup request.command h)
    else if text_eq name (text "autocmd") || text_eq name (text "autocmd!")
    then handled (handle_autocmd request h)
    else if is_some (mapping_modes name)
    then handled (handle_mapping request h)
    else (none, h)

unfoldable pub mapping : MapMode → Text → Option ℕ → HostRuntime → Option CompiledMapping
mapping mode lhs buffer h = resolve_mapping mode lhs buffer h.keymaps

unfoldable pub with_expansion : CommandRequest → Result ExCommand → Result CommandRequest
with_expansion request (ok command) = ok (record request { command = command })
with_expansion request (err e) = err e
with_expansion request panic = panic

-- The loop of `prepare_command`, with the rounds that are left.
unfoldable pub prepare_rounds :
    (rounds : ℕ) → List (Text × UserCommand) → CommandRequest → Result CommandRequest
unfolding with_expansion expand invalid_command
prepare_rounds zero commands request =
    err (invalid_command (text "E169") (text "user command expansion is recursive"))
prepare_rounds (suc rounds) commands request = elim (find text_eq request.command.name commands) [
  | none ↦ ok request
  | some u ↦ elim (with_expansion request (expand u request.command)) [
    | ok request' ↦ prepare_rounds rounds commands request'
    | err e ↦ err e
    | panic ↦ panic
  ]
]

unfoldable pub prepare_command : HostRuntime → CommandRequest → Result CommandRequest
unfolding prepare_rounds
prepare_command h request = prepare_rounds 32 h.user_commands request

-- The names of the host functions, in the order of the table that holds them.
unfoldable pub install_from :
    List (Text × HostFunctionRegistration) → List (Text × Value) → List (Text × Value)
install_from [] globals = globals
install_from ((name, r) ∷ rest) globals = install_from rest (
    store text_eq (text "g:" ++ name) (Value.host_function name)
      (store text_eq (text ":" ++ name) (Value.host_function name) globals))

unfoldable pub install_globals : HostRuntime → Vm → Vm
unfolding install_from
install_globals h vm = record vm { globals = install_from h.functions vm.globals }
