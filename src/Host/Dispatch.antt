-- ===== src/Host/Dispatch.antt =====
-- src/host.rs: capabilities, the registries of host functions and commands, and the dispatch of
-- requests to the host.
use vim_script.Prelude.{
  byte_length, ℕ, Bool, true, not, ◌&&◌, Option, none, some, List, [], ◌∷◌, ◌++◌, Text, text,
  if◌then◌else◌, leb, ◌==◌, any, length, lookup, text_eq, starts_with, is_some,
}
use vim_script.Host.{HostTarget, HostRequest, OptionRequest, CommandRequest}
use vim_script.Runtime.Error.{RuntimeErrorKind, RuntimeError, Result, ok, err, panic, coded}
use vim_script.Integration.Keymaps.{KeymapStore}
use vim_script.Integration.Events.{EventBus}
use vim_script.Host.UserCommands.{UserCommand}

pub data Capability : Type 0 where
  editor buffer_read buffer_write window settings : Capability
  file_system_read file_system_write network : Capability
  clipboard_read clipboard_write terminal process user_interface : Capability
  custom : Text → Capability

-- The place of a constructor in the `enum`.
abbrev rank : Capability → ℕ
rank Capability.editor = 0
rank Capability.buffer_read = 1
rank Capability.buffer_write = 2
rank Capability.window = 3
rank Capability.settings = 4
rank Capability.file_system_read = 5
rank Capability.file_system_write = 6
rank Capability.network = 7
rank Capability.clipboard_read = 8
rank Capability.clipboard_write = 9
rank Capability.terminal = 10
rank Capability.process = 11
rank Capability.user_interface = 12
rank (Capability.custom name) = 13

custom_name : Capability → Text
custom_name (Capability.custom name) = name
custom_name _ = []

-- The derived equality.
unfoldable pub capability_eq : Capability → Capability → Bool
unfolding custom_name
capability_eq a b = (rank a == rank b) && text_eq (custom_name a) (custom_name b)

-- A `HashSet` of capabilities is a list.
unfoldable pub allows : List Capability → Capability → Bool
allows granted c = any (capability_eq c) granted

unfoldable pub first_missing : List Capability → List Capability → Option Capability
first_missing granted [] = none
first_missing granted (c ∷ required) =
    if allows granted c then first_missing granted required else some c

unfoldable pub allows_all : List Capability → List Capability → Bool
allows_all granted [] = true
allows_all granted (c ∷ required) = allows granted c && allows_all granted required

pub data Arity : Type 0 where
  exact : ℕ → Arity
  between : (least most : ℕ) → Arity
  variadic : (least : ℕ) → Arity

unfoldable pub arity_accepts : Arity → ℕ → Bool
arity_accepts (Arity.exact n) count = count == n
arity_accepts (Arity.between least most) count = leb least count && leb count most
arity_accepts (Arity.variadic least) count = leb least count

pub record HostFunctionRegistration : Type 0 where
  pub name : Text
  pub target : HostTarget
  pub arity : Arity
  pub required_capabilities : List Capability

pub record CommandDefinition : Type 0 where
  pub name : Text
  pub minimum_abbreviation : ℕ
  pub accepts_bang : Bool
  pub accepts_range : Bool
  pub accepts_count : Bool
  pub accepts_register : Bool
  pub required_capabilities : List Capability

-- The `Host` of the embedding program, and the formatting of a capability by `{:?}`.
pub record HostApi (Fut : Type 0) : Type 0 where
  pub call : HostRequest → Fut
  pub option : OptionRequest → Fut
  pub execute_command : CommandRequest → Fut
  pub debug_capability : Capability → Text

-- The `host` itself is a parameter of the functions that call it.
pub record HostRuntime : Type 0 where
  pub capabilities : List Capability
  pub functions : List (Text × HostFunctionRegistration)
  pub commands : List (Text × CommandDefinition)
  pub user_commands : List (Text × UserCommand)
  pub keymaps : KeymapStore
  pub events : EventBus
  pub current_augroup : Option Text
  pub next_mapping_id : ℕ
  pub next_event_handler_id : ℕ

unfoldable pub abbreviates : Text → CommandDefinition → Bool
abbreviates name d = leb d.minimum_abbreviation (byte_length name) && starts_with d.name name

unfoldable pub matching : Text → List (Text × CommandDefinition) → List CommandDefinition
matching name [] = []
matching name ((k, d) ∷ rest) =
    if abbreviates name d then d ∷ matching name rest else matching name rest

unfoldable pub one_of : Text → List CommandDefinition → Result CommandDefinition
one_of name [] =
    err (
      coded (text "E492") RuntimeErrorKind.invalid_command (text "not an editor command: " ++ name))
one_of name (d ∷ []) = ok d
one_of name (d ∷ more) =
    err (coded (text "E464") RuntimeErrorKind.invalid_command (text "ambiguous command: " ++ name))

-- `CommandRegistry::resolve`
unfoldable pub resolve : Text → List (Text × CommandDefinition) → Result CommandDefinition
resolve name commands = elim (lookup name commands) [
  | some d ↦ ok d
  | none ↦ one_of name (matching name commands)
]

module _ {Fut : Type 0} (api : HostApi Fut) (h : HostRuntime) where
  unfoldable pub call_registered : HostRequest → HostFunctionRegistration → Result Fut
  call_registered request r =
      if arity_accepts r.arity (length request.arguments)
      then elim (first_missing h.capabilities r.required_capabilities) [
        | none ↦ ok (api.call (record request { target = r.target }))
        | some missing ↦ err (
            coded (text "E_PERM") RuntimeErrorKind.permission_denied (
              text "host function "
              ++ (request.function
                  ++ (text " requires capability " ++ api.debug_capability missing))))
      ]
      else err (
          coded (text "E119") RuntimeErrorKind.arity_error
            (text "invalid argument count for " ++ request.function))

  unfoldable pub dispatch : HostRequest → Result Fut
  dispatch request = elim (lookup request.function h.functions) [
    | none ↦ err (
        coded (text "E117") RuntimeErrorKind.name_error
          (text "unknown host function: " ++ request.function))
    | some r ↦ call_registered request r
  ]

  unfoldable pub dispatch_option : OptionRequest → Result Fut
  dispatch_option request =
      if allows h.capabilities Capability.settings
      then ok (api.option request)
      else err (
          coded (text "E_PERM") RuntimeErrorKind.permission_denied
            (text "option " ++ (request.name ++ text " requires capability Settings")))

  unfoldable pub refusal : CommandRequest → CommandDefinition → Option RuntimeError
  refusal request d =
      if request.command.bang && not d.accepts_bang
      then some (
          coded (text "E477") RuntimeErrorKind.invalid_command
            (d.name ++ text " does not accept !"))
      else if is_some request.command.range && not d.accepts_range
      then some (
          coded (text "E481") RuntimeErrorKind.invalid_command
            (d.name ++ text " does not accept a range"))
      else if allows_all h.capabilities d.required_capabilities
      then none
      else some (
          coded (text "E_PERM") RuntimeErrorKind.permission_denied
            (text "command " ++ (d.name ++ text " lacks required capabilities")))

  unfoldable pub run_resolved : CommandRequest → CommandDefinition → Result Fut
  run_resolved request d = elim (refusal request d) [
    | some e ↦ err e
    | none ↦ ok (
        api.execute_command (record request { command = record request.command { name = d.name } }))
  ]

  unfoldable pub after_resolve : CommandRequest → Result CommandDefinition → Result Fut
  after_resolve request (ok d) = run_resolved request d
  after_resolve request (err e) = err e
  after_resolve request panic = panic

  unfoldable pub dispatch_command : CommandRequest → Result Fut
  dispatch_command request = after_resolve request (resolve request.command.name h.commands)
