-- ===== src/Integration/Options.antt =====
-- src/integration.rs: OptionStore.
pub mod Typed
pub mod Kept
pub mod Reads
use vim_script.Prelude.{
  ℕ, Bool, true, false, ◌&&◌, ◌||◌, not, Option, none, some, List, [], ◌∷◌, ◌++◌, Text, text,
  text_eq, ◌==◌, find, store, erase, if◌then◌else◌, is_some,
}
use vim_script.Runtime.Value.{Value, Values, nil, cons}
use vim_script.Runtime.Error.{RuntimeErrorKind, RuntimeError, Result, ok, err, panic, coded}

pub data OptionKind : Type 0 where
  boolean number string string_list flags : OptionKind

pub data OptionValueScope : Type 0 where
  global buffer window global_buffer global_window : OptionValueScope

pub record OptionDefinition : Type 0 where
  pub name : Text
  pub short_name : Option Text
  pub kind : OptionKind
  pub scope : OptionValueScope
  pub default : Value

pub data OptionScope : Type 0 where
  global : OptionScope
  buffer window : ℕ → OptionScope

abbrev pub OptionValues : Type 0
OptionValues = List (Text × Value)

abbrev pub Locals : Type 0
Locals = List (ℕ × OptionValues)

pub record OptionStore : Type 0 where
  pub definitions : List (Text × OptionDefinition)
  pub global : OptionValues
  pub buffers : Locals
  pub windows : Locals

unfoldable pub option_error : Text → RuntimeErrorKind → Text → RuntimeError
option_error code kind message = coded code kind message

unfoldable pub all_strings : Values → Bool
all_strings nil = true
all_strings (cons (Value.string s) vs) = all_strings vs
all_strings (cons v vs) = false

unfoldable pub is_of_kind : OptionKind → Value → Bool
unfolding all_strings
is_of_kind OptionKind.boolean (Value.bool b) = true
is_of_kind OptionKind.number (Value.integer n) = true
is_of_kind OptionKind.string (Value.string s) = true
is_of_kind OptionKind.flags (Value.string s) = true
is_of_kind OptionKind.string_list (Value.list vs) = all_strings vs
is_of_kind _ _ = false

-- `{:?}` of a kind
unfoldable pub kind_name : OptionKind → Text
kind_name OptionKind.boolean = text "Boolean"
kind_name OptionKind.number = text "Number"
kind_name OptionKind.string = text "String"
kind_name OptionKind.string_list = text "StringList"
kind_name OptionKind.flags = text "Flags"

unfoldable pub validate_option_value : OptionKind → Value → Result (Unit {0})
unfolding option_error is_of_kind kind_name
validate_option_value kind value =
    if is_of_kind kind value
    then ok tt
    else err (
        option_error (text "E_OPTION_TYPE") RuntimeErrorKind.type_error
          (text "value does not match option kind " ++ kind_name kind))

unfoldable pub scope_accepts : OptionValueScope → OptionScope → Bool
scope_accepts OptionValueScope.global OptionScope.global = true
scope_accepts OptionValueScope.buffer (OptionScope.buffer b) = true
scope_accepts OptionValueScope.window (OptionScope.window w) = true
scope_accepts OptionValueScope.global_buffer OptionScope.global = true
scope_accepts OptionValueScope.global_buffer (OptionScope.buffer b) = true
scope_accepts OptionValueScope.global_window OptionScope.global = true
scope_accepts OptionValueScope.global_window (OptionScope.window w) = true
scope_accepts _ _ = false

unfoldable pub validate_scope : OptionDefinition → OptionScope → Result (Unit {0})
unfolding option_error scope_accepts
validate_scope d scope =
    if scope_accepts d.scope scope
    then ok tt
    else err (
        option_error (text "E_OPTION_SCOPE") RuntimeErrorKind.invalid_command
          (text "invalid scope for option '" ++ (d.name ++ text "'")))

unfoldable pub has_short : Text → Option Text → Bool
has_short name none = false
has_short name (some short) = text_eq short name

unfoldable pub find_short : Text → List (Text × OptionDefinition) → Option OptionDefinition
unfolding has_short
find_short name [] = none
find_short name ((k, d) ∷ m) =
    let rest = find_short name m in if has_short name d.short_name then some d else rest

unfoldable pub first_definition :
    Text → Option OptionDefinition → Option OptionDefinition → Result OptionDefinition
unfolding option_error
first_definition name (some d) _ = ok d
first_definition name none (some d) = ok d
first_definition name none none = err (
    option_error (text "E_UNKNOWN_OPTION") RuntimeErrorKind.name_error
      (text "unknown option '" ++ (name ++ text "'")))

unfoldable pub definition : Text → OptionStore → Result OptionDefinition
unfolding first_definition find_short
definition name s =
    first_definition name (find text_eq name s.definitions) (find_short name s.definitions)

-- Whether a short name is a name or a short name of some definition.
unfoldable pub short_taken : Text → List (Text × OptionDefinition) → Bool
unfolding has_short
short_taken short [] = false
short_taken short ((k, d) ∷ m) =
    text_eq d.name short || has_short short d.short_name || short_taken short m

unfoldable pub taken : Option Text → List (Text × OptionDefinition) → Bool
unfolding short_taken
taken none m = false
taken (some short) m = short_taken short m

unfoldable pub add_definition : OptionDefinition → OptionStore → OptionStore
add_definition d s = record s {
  global = store text_eq d.name d.default s.global;
  definitions = store text_eq d.name d s.definitions;
}

abbrev pub is_blank : Text → Bool
is_blank [] = true
is_blank (c ∷ s) = false

unfoldable pub define_valid : OptionDefinition → OptionStore → Result (Unit {0}) × OptionStore
unfolding option_error taken add_definition
define_valid d s =
    if is_blank d.name
    then (
      err (
          option_error (text "E_OPTION_NAME") RuntimeErrorKind.name_error
            (text "option name cannot be empty")),
      s,
    )
    else if is_some (find text_eq d.name s.definitions) || taken d.short_name s.definitions
    then (
      err (
          option_error (text "E_OPTION_EXISTS") RuntimeErrorKind.name_error
            (text "option '" ++ (d.name ++ text "' is already defined"))),
      s,
    )
    else (ok tt, add_definition d s)

unfoldable pub define : OptionDefinition → OptionStore → Result (Unit {0}) × OptionStore
unfolding define_valid validate_option_value
define d s = elim (validate_option_value d.kind d.default) [
  | ok u ↦ define_valid d s
  | err e ↦ (err e, s)
  | panic ↦ (panic, s)
]

-- The values of a buffer or a window, where there are any.
unfoldable pub values_of : Option OptionValues → OptionValues
values_of none = []
values_of (some m) = m

abbrev pub same_id : ℕ → ℕ → Bool
same_id a b = a == b

unfoldable pub local_value : Text → ℕ → Locals → Option Value
unfolding values_of
local_value name b locals = find text_eq name (values_of (find same_id b locals))

unfoldable pub local_at : Text → OptionScope → OptionStore → Option Value
unfolding local_value
local_at name OptionScope.global s = none
local_at name (OptionScope.buffer b) s = local_value name b s.buffers
local_at name (OptionScope.window w) s = local_value name w s.windows

unfoldable pub value_or_global : Text → Option Value → Option Value → Result Value
unfolding option_error
value_or_global name (some v) _ = ok v
value_or_global name none (some v) = ok v
value_or_global name none none = err (
    option_error (text "E_OPTION_STATE") RuntimeErrorKind.internal
      (text "option '" ++ (name ++ text "' has no value")))

-- A definition that is found and may be used at a scope.
unfoldable pub defined_at : Text → OptionScope → OptionStore → Result OptionDefinition
unfolding definition validate_scope
defined_at name scope s = elim (definition name s) [
  | ok d ↦ elim (validate_scope d scope) [ ok u ↦ ok d | err e ↦ err e | panic ↦ panic ]
  | err e ↦ err e
  | panic ↦ panic
]

unfoldable pub get_option : Text → OptionScope → OptionStore → Result Value
unfolding defined_at local_at value_or_global
get_option name scope s = elim (defined_at name scope s) [
  | ok d ↦ value_or_global d.name (local_at d.name scope s) (find text_eq d.name s.global)
  | err e ↦ err e
  | panic ↦ panic
]

unfoldable pub set_local : Text → Value → ℕ → Locals → Locals
unfolding values_of
set_local name v b locals =
    store same_id b (store text_eq name v (values_of (find same_id b locals))) locals

unfoldable pub write_at : OptionScope → Text → Value → OptionStore → OptionStore
unfolding set_local
write_at OptionScope.global name v s = record s { global = store text_eq name v s.global }
write_at (OptionScope.buffer b) name v s = record s { buffers = set_local name v b s.buffers }
write_at (OptionScope.window w) name v s = record s { windows = set_local name v w s.windows }

unfoldable pub set_option :
    Text → OptionScope → Value → OptionStore → Result (Unit {0}) × OptionStore
unfolding defined_at validate_option_value write_at
set_option name scope v s = elim (defined_at name scope s) [
  | ok d ↦ elim (validate_option_value d.kind v) [
    | ok u ↦ (ok tt, write_at scope d.name v s)
    | err e ↦ (err e, s)
    | panic ↦ (panic, s)
  ]
  | err e ↦ (err e, s)
  | panic ↦ (panic, s)
]

-- The values of a buffer or window that are left; none left are dropped.
unfoldable pub put_values : ℕ → OptionValues → Locals → Locals
put_values b [] locals = erase same_id b locals
put_values b (e ∷ m) locals = store same_id b (e ∷ m) locals

unfoldable pub clear_found : Text → ℕ → Option OptionValues → Locals → Locals
unfolding put_values
clear_found name b none locals = locals
clear_found name b (some m) locals = put_values b (erase text_eq name m) locals

unfoldable pub reset_at : OptionScope → OptionDefinition → OptionStore → OptionStore
unfolding clear_found
reset_at OptionScope.global d s = record s { global = store text_eq d.name d.default s.global }
reset_at (OptionScope.buffer b) d s = record s {
  buffers = clear_found d.name b (find same_id b s.buffers) s.buffers;
}
reset_at (OptionScope.window w) d s = record s {
  windows = clear_found d.name w (find same_id w s.windows) s.windows;
}

unfoldable pub reset_option : Text → OptionScope → OptionStore → Result (Unit {0}) × OptionStore
unfolding defined_at reset_at
reset_option name scope s = elim (defined_at name scope s) [
  | ok d ↦ (ok tt, reset_at scope d s)
  | err e ↦ (err e, s)
  | panic ↦ (panic, s)
]
