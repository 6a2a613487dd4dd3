-- ===== src/Runtime/Builtins/Registry.antt =====
-- src/runtime/builtins.rs: the registry of builtin functions.
use vim_script.Prelude.{
  ℕ, Bool, ◌&&◌, Option, none, some, List, [], ◌++◌, Text, text, ltb, leb, ◌==◌, if◌then◌else◌,
  length, lookup, insert, show_ℕ, map, is_some,
}
use vim_script.Runtime.Value.{Value, FloatOps}
use vim_script.Runtime.Error.{Result, err}
use vim_script.Runtime.Builtins.Display.{typed_error}
use vim_script.Runtime.Builtins.Numbers
use vim_script.Runtime.Builtins.Numbers.{abs, min, max}
use vim_script.Runtime.Builtins.Collections.{
  value_length, exists_without_vm_context, value_type, add, get_or_default, reversed, is_empty,
  sort,
}
use vim_script.Runtime.Builtins.Strings.{CaseMapping, split, tolower, toupper, string, join, printf}

pub data BuiltinArity : Type 0 where
  exact : ℕ → BuiltinArity
  range : (min max : ℕ) → BuiltinArity
  variadic : (min : ℕ) → BuiltinArity

unfoldable pub arity_takes : BuiltinArity → ℕ → Bool
arity_takes (BuiltinArity.exact expected) count = count == expected
arity_takes (BuiltinArity.range min max) count = leb min count && leb count max
arity_takes (BuiltinArity.variadic min) count = leb min count

unfoldable pub describe : BuiltinArity → Text
describe (BuiltinArity.exact expected) = show_ℕ expected
describe (BuiltinArity.range min max) = show_ℕ min ++ (text "..=" ++ show_ℕ max)
describe (BuiltinArity.variadic min) = text "at least " ++ show_ℕ min

pub record BuiltinSpec : Type 0 where
  pub function : List Value → Result Value
  pub arity : BuiltinArity

pub record BuiltinRegistry : Type 0 where
  pub functions : List (Text × BuiltinSpec)

unfoldable pub register :
    Text → BuiltinArity → (List Value → Result Value) → BuiltinRegistry → BuiltinRegistry
register name arity function r = record {
  functions = insert name (record { function = function; arity = arity }) r.functions;
}

unfoldable pub contains : BuiltinRegistry → Text → Bool
contains r name = is_some (lookup name r.functions)

unfoldable pub names : BuiltinRegistry → List Text
names r = map (λ (e : Text × BuiltinSpec). e.0) r.functions

unfoldable pub arity_code : BuiltinArity → ℕ → Text
arity_code (BuiltinArity.exact expected) count =
    if ltb expected count then text "E118" else text "E119"
arity_code (BuiltinArity.range min max) count = if ltb max count then text "E118" else text "E119"
arity_code (BuiltinArity.variadic min) count = text "E119"

unfoldable pub call_spec : Text → Option BuiltinSpec → List Value → Result Value
unfolding arity_takes describe arity_code
call_spec name none arguments = err (typed_error (text "E117") (text "unknown function: " ++ name))
call_spec name (some spec) arguments =
    let count = length arguments in
    if arity_takes spec.arity count
    then spec.function arguments
    else err (
        typed_error (arity_code spec.arity count) (
          text "function "
          ++ (name
              ++ (text " expects "
                  ++ (describe spec.arity ++ (text " arguments, got " ++ show_ℕ count))))))

unfoldable pub call_builtin : BuiltinRegistry → Text → List Value → Result Value
unfolding call_spec
call_builtin r name arguments = call_spec name (lookup name r.functions) arguments

module _ (fl : FloatOps) (case_mapping : CaseMapping) (overflow_checks : Bool) where
  unfoldable pub with_defaults : BuiltinRegistry
  unfolding register
  with_defaults =
      let r : BuiltinRegistry = record { functions = [] } in
      let r = register (text "abs") (BuiltinArity.exact 1) abs r in
      let r = register (text "add") (BuiltinArity.exact 2) add r in
      let r = register (text "empty") (BuiltinArity.exact 1) (is_empty fl) r in
      let r = register (text "exists") (BuiltinArity.exact 1) exists_without_vm_context r in
      let r = register (text "get") (BuiltinArity.range 2 3) get_or_default r in
      let r = register (text "join") (BuiltinArity.range 1 2) (join fl) r in
      let r = register (text "len") (BuiltinArity.exact 1) value_length r in
      let r = register (text "max") (BuiltinArity.exact 1) max r in
      let r = register (text "min") (BuiltinArity.exact 1) min r in
      let r = register (text "printf") (BuiltinArity.variadic 1) (printf fl) r in
      let r = register (text "range") (BuiltinArity.range 1 3) (Numbers.range overflow_checks) r in
      let r = register (text "reverse") (BuiltinArity.exact 1) reversed r in
      let r = register (text "sort") (BuiltinArity.exact 1) (sort fl) r in
      let r = register (text "split") (BuiltinArity.range 1 2) split r in
      let r = register (text "string") (BuiltinArity.exact 1) (string fl) r in
      let r = register (text "tolower") (BuiltinArity.exact 1) (tolower case_mapping) r in
      let r = register (text "toupper") (BuiltinArity.exact 1) (toupper case_mapping) r in
      register (text "type") (BuiltinArity.exact 1) value_type r
