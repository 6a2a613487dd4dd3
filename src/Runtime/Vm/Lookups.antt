-- ===== src/Runtime/Vm/Lookups.antt =====
-- src/runtime/vm.rs: prototypes, constants, jumps, global variables and `exists()`.
use vim_script.Prelude.{
  ℕ, suc, Bool, true, false, ◌||◌, Option, none, some, List, [], ◌∷◌, ◌++◌, Text, text, pos, ltb,
  if◌then◌else◌, length, get_elem?, lookup, strip_prefix, starts_with, ends_with_char,
  contains_char, show_ℕ,
}
use vim_script.Source.{SourceId}
use vim_script.Ast.{ExCommand}
use vim_script.Bytecode.{
  BytecodeModule, FunctionId, ConstantId, FunctionPrototype, Constant, function_of,
}
use vim_script.Runtime.Value.{Value, nil, Entries, end}
use vim_script.Runtime.Error.{RuntimeErrorKind, Result, ok, err, coded}
use vim_script.Runtime.Arithmetic.{dict_insert}
use vim_script.Runtime.Vm.State.{
  Vm, CallFrame, Platform, M, ◌>>=◌, raise, or_raise, gets, frame, set_frame,
}

unfoldable pub prototype : BytecodeModule → FunctionId → M FunctionPrototype
prototype m id =
    or_raise (function_of m id) RuntimeErrorKind.internal
      (text "function " ++ (show_ℕ id ++ text " is missing"))

-- A function constant makes a new closure, at a new address.
fresh_closure : BytecodeModule → FunctionId → M Value
fresh_closure m id vm = (
  ok (Value.closure vm.next_address (record { module_of = m; id = id }) nil),
  record vm { next_address = suc vm.next_address },
)

constant_as_value : BytecodeModule → Constant → M Value
constant_as_value m Constant.null = gets (λ _. Value.null)
constant_as_value m (Constant.bool b) = gets (λ _. Value.bool b)
constant_as_value m (Constant.integer n) = gets (λ _. Value.integer n)
constant_as_value m (Constant.float x) = gets (λ _. Value.float x)
constant_as_value m (Constant.string s) = gets (λ _. Value.string s)
constant_as_value m (Constant.blob b) = gets (λ _. Value.blob b)
constant_as_value m (Constant.function f) = fresh_closure m f
constant_as_value m (Constant.command c) =
    raise RuntimeErrorKind.internal (text "command constant used as a value")

unfoldable pub constant_value : BytecodeModule → FunctionId → ConstantId → M Value
unfolding constant_as_value fresh_closure
constant_value m f id = do
  proto ← prototype m f
  c ←
      or_raise (get_elem? proto.constants id) RuntimeErrorKind.internal
        (text "constant index is out of bounds")
  constant_as_value m c

as_command : Option Constant → Option ExCommand
as_command (some (Constant.command c)) = some c
as_command _ = none

as_string : Option Constant → Option Text
as_string (some (Constant.string s)) = some s
as_string _ = none

unfoldable pub constant_command : BytecodeModule → FunctionId → ConstantId → M ExCommand
unfolding as_command
constant_command m f id = do
  proto ← prototype m f
  or_raise (as_command (get_elem? proto.constants id)) RuntimeErrorKind.internal
      (text "constant is not a command")

unfoldable pub constant_string : BytecodeModule → FunctionId → ConstantId → M Text
unfolding as_string
constant_string m f id = do
  proto ← prototype m f
  or_raise (as_string (get_elem? proto.constants id)) RuntimeErrorKind.internal
      (text "constant is not a string")

-- A jump to the end of the code is let through: the next step then fails.
unfoldable pub jump : ℕ → M (Unit {0})
jump target = do
  f ← frame
  proto ← prototype f.module_of f.function
  if ltb (length proto.code) target
      then raise RuntimeErrorKind.internal (text "jump target is out of bounds")
      else set_frame (record f { instruction_pointer = target })

-- The globals below a prefix such as `g:`, by their names without it.
unfoldable pub namespace_entries : Text → List (Text × Value) → Entries
namespace_entries prefix [] = end
namespace_entries prefix ((name, v) ∷ rest) =
    let es = namespace_entries prefix rest in
    elim (strip_prefix name prefix) [
      | none ↦ es
      | some [] ↦ es
      | some (c ∷ key) ↦ dict_insert (c ∷ key) v es
    ]

or_self : Option Text → Text → Text
or_self none name = name
or_self (some rest) name = rest

module _ (p : Platform) where
  -- The value of a name: a global, a namespace, or a builtin function.
  unfoldable pub global_value : Text → M Value
  unfolding or_self
  global_value name vm = elim (lookup name vm.globals) [
    | some v ↦ (ok v, vm)
    | none ↦
        if ends_with_char name b':'
        then (ok (Value.dictionary (namespace_entries name vm.globals)), vm)
        else let builtin_name = or_self (strip_prefix name (text ":")) name in
          if p.builtin_contains builtin_name
          then (ok (Value.builtin builtin_name), vm)
          else raise RuntimeErrorKind.name_error (text "undefined runtime variable " ++ name) vm
  ]

  is_script_function : Option Value → Bool
  is_script_function (some (Value.closure a f cs)) = true
  is_script_function (some (Value.builtin n)) = true
  is_script_function (some (Value.host_function n)) = true
  is_script_function _ = false

  is_global_function : Option Value → Bool
  is_global_function (some (Value.closure a f cs)) = true
  is_global_function (some (Value.host_function n)) = true
  is_global_function _ = false

  is_defined : Option Value → Bool
  is_defined none = false
  is_defined (some v) = true

  running_source : Vm → List CallFrame → SourceId
  running_source vm [] = vm.module_of.source
  running_source vm (f ∷ fs) = f.module_of.source

  exists_function : Vm → Text → Bool
  unfolding is_script_function is_global_function
  exists_function vm name =
      p.builtin_contains name
      || (is_script_function (lookup (text ":" ++ name) vm.globals)
          || is_global_function (lookup (text "g:" ++ name) vm.globals))

  exists_script : Vm → Text → Bool
  unfolding is_defined running_source
  exists_script vm name =
      let source = running_source vm vm.frames in
      is_defined (lookup (text "s" ++ (show_ℕ source.index ++ (text ":" ++ name))) vm.globals)

  exists_variable : Vm → Text → Bool
  unfolding is_defined
  exists_variable vm name =
      if starts_with name (text "&") || (starts_with name (text ":") || starts_with name (text "+"))
      then false
      else is_defined
          (lookup (if contains_char name b':' then name else text ":" ++ name) vm.globals)

  -- The tests of `exists()` in the order of its prefixes: `*`, `$`, `s:`, and the rest.
  unfoldable pub name_exists : Vm → Text → Bool
  unfolding exists_function exists_script exists_variable
  name_exists vm name = elim (strip_prefix name (text "*")) [
    | some function ↦ exists_function vm function
    | none ↦ elim (strip_prefix name (text "$")) [
      | some variable ↦ p.env_set variable
      | none ↦ elim (strip_prefix name (text "s:")) [
        | some script ↦ exists_script vm script
        | none ↦ exists_variable vm name
      ]
    ]
  ]

  unfoldable pub builtin_exists : Vm → List Value → Result Value
  builtin_exists vm (Value.string name ∷ []) =
      ok (Value.integer (pos (if name_exists vm name then 1 else 0)))
  builtin_exists vm arguments = err (
      coded (text "E730") RuntimeErrorKind.type_error
        (text "exists() requires one String argument"))
