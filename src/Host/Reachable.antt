-- ===== src/Host/Reachable.antt =====
-- src/host.rs: the host runtimes that the methods lead to, and the user commands in them.
use vim_script.Prelude.{
  ℕ, Bool-cases, inl, inr, text, ◌≡◌, refl, sym, subst, ◌<◌, Bool, true, some, List, [], ◌∷◌, Text,
  text_eq, find, arith, length,
}
use vim_script.Ast.{ExCommand}
use vim_script.Runtime.Builtins.Strings.{split_whitespace}
use vim_script.Runtime.Error.{Result, ok, err, panic}
use vim_script.Host.{CommandRequest, HostContext}
use vim_script.Integration.Events.{Event}
use vim_script.Host.UserCommands.{
  UserCommand, is_nargs, valid_name, parse_user_command, nargs_or_zero, takes_arguments,
}
use vim_script.Host.Dispatch.{Capability, Arity, CommandDefinition, HostRuntime}
use vim_script.Host.Autocommands.{event_commands}
use vim_script.Host.Methods.{
  new_host, grant, revoke, register_function, register_command, define_parsed, define_user_command,
  remove_user_command, delete_named, delete_words, delete_user_command, handle_registration_command,
}
use vim_script.Host.Registered.{
  IsChecked, AllChecked, parse_user_command-IsChecked, store-AllChecked, erase-AllChecked,
  find-AllChecked,
}
use vim_script.Host.Kept.{handle_registration_command-commands}

define_parsed-AllChecked :
    (bang : Bool) (r : Result UserCommand) (h : HostRuntime)
    → ((u : UserCommand) → r ≡ ok u → IsChecked u)
    → AllChecked h.user_commands
    → AllChecked (define_parsed bang r h).1.user_commands
unfolding define_parsed
define_parsed-AllChecked bang (ok u) h checked all =
    ground (arith, all, store-AllChecked u h.user_commands (checked u refl) all)
define_parsed-AllChecked bang (err e) h checked all = all
define_parsed-AllChecked bang panic h checked all = all

delete_words-AllChecked :
    (command : ExCommand) (words : List Text) (h : HostRuntime)
    → AllChecked h.user_commands
    → AllChecked (delete_words command words h).1.user_commands
unfolding delete_words delete_named remove_user_command
delete_words-AllChecked command [] h all = all
delete_words-AllChecked command (name ∷ more) h all =
    ground (arith, all, erase-AllChecked name h.user_commands all)

-- A host runtime that the methods have made of a new one.
pub data HostReachable : HostRuntime → Type 0 where
  start : HostReachable new_host
  granted :
      {h : HostRuntime}
      → HostReachable h
      → (c : Capability) → HostReachable (record h { capabilities = (grant c h.capabilities).1 })
  revoked :
      {h : HostRuntime}
      → HostReachable h
      → (c : Capability) → HostReachable (record h { capabilities = (revoke c h.capabilities).1 })
  function_registered :
      {h : HostRuntime}
      → HostReachable h
      → (name : Text) (arity : Arity) (required : List Capability)
      → HostReachable (register_function name arity required h)
  command_registered :
      {h : HostRuntime}
      → HostReachable h
      → (definition : CommandDefinition) → HostReachable (register_command definition h)
  defined :
      {h : HostRuntime}
      → HostReachable h
      → (command : ExCommand) → HostReachable (define_user_command command h).1
  removed :
      {h : HostRuntime}
      → HostReachable h
      → (name : Text) → HostReachable (remove_user_command name h).1
  deleted :
      {h : HostRuntime}
      → HostReachable h
      → (command : ExCommand) → HostReachable (delete_user_command command h).1
  registration :
      {h : HostRuntime}
      → HostReachable h
      → (request : CommandRequest) → HostReachable (handle_registration_command request h).1
  fired :
      {h : HostRuntime}
      → HostReachable h
      → (event : Event) (context : HostContext) → HostReachable (event_commands event context h).1

HostReachable-AllChecked : {h : HostRuntime} → HostReachable h → AllChecked h.user_commands
unfolding new_host AllChecked register_function register_command define_user_command
    delete_user_command event_commands
HostReachable-AllChecked start = tt
HostReachable-AllChecked (granted r c) = HostReachable-AllChecked r
HostReachable-AllChecked (revoked r c) = HostReachable-AllChecked r
HostReachable-AllChecked (function_registered r name arity required) = HostReachable-AllChecked r
HostReachable-AllChecked (command_registered r definition) = HostReachable-AllChecked r
HostReachable-AllChecked (defined {h} r command) =
    define_parsed-AllChecked command.bang (parse_user_command command) h
      (parse_user_command-IsChecked command) (HostReachable-AllChecked r)
HostReachable-AllChecked (removed {h} r name) =
    erase-AllChecked name h.user_commands (HostReachable-AllChecked r)
HostReachable-AllChecked (deleted {h} r command) =
    delete_words-AllChecked command (split_whitespace command.arguments) h
      (HostReachable-AllChecked r)
HostReachable-AllChecked (registration {h} r request) =
    subst AllChecked (sym (handle_registration_command-commands request h))
      (HostReachable-AllChecked r)
HostReachable-AllChecked (fired r event context) = HostReachable-AllChecked r

-- A number of arguments that `expand` lets through.
nargs-Taken : (nargs : Text) → is_nargs nargs ≡ true → (n : ℕ) × (takes_arguments nargs n ≡ true)
unfolding is_nargs takes_arguments
nargs-Taken nargs h = elim (Bool-cases (text_eq nargs (text "0"))) [
  | inl same ↦ (0, rw same refl)
  | inr other ↦ (1, ground (arith, h, other))
]

-- In every host runtime that the methods lead to, a user command that a name finds has that name,
-- which starts with an uppercase letter and has letters and digits only; its replacement is not
-- empty, and `expand` takes some number of arguments for it: it is not refused whatever its arguments.
pub HostReachable-IsChecked :
    {h : HostRuntime}
    → HostReachable h
    → (name : Text) (u : UserCommand) → find text_eq name h.user_commands ≡ some u
    → (u.name ≡ name)
      × (valid_name u.name ≡ true)
      × (0 < length u.replacement)
      × ((n : ℕ) × (takes_arguments (nargs_or_zero u.attributes.nargs) n ≡ true))
HostReachable-IsChecked {h} r name u e =
    let (named, checked) = find-AllChecked name h.user_commands u (HostReachable-AllChecked r) e in
    (named, checked.0, checked.1, nargs-Taken (nargs_or_zero u.attributes.nargs) checked.2)
