-- ===== src/Runtime/Error.antt =====
-- src/runtime/vm.rs: runtime errors and results. `panic` is the abort of a Rust program, by an
-- `expect` that fails or by an arithmetic operation that the processor refuses.
use vim_script.Prelude.{ℕ, Option, none, some, List, [], Text, text, ◌≡◌, ◌≢◌, ◌⊎◌, inl, inr, refl}
use vim_script.Source.{Span}
use vim_script.Runtime.Value.{Value}

pub data RuntimeErrorKind : Type 0 where
  type_error name_error arity_error index_error key_error division_by_zero : RuntimeErrorKind
  invalid_command permission_denied host_error cancelled resource_limit : RuntimeErrorKind
  user_thrown : Value → RuntimeErrorKind
  internal : RuntimeErrorKind

pub record StackTraceEntry : Type 0 where
  pub function : Option Text
  pub span : Option Span
  pub instruction : ℕ

pub record RuntimeError : Type 0 where
  pub code : Option Text
  pub kind : RuntimeErrorKind
  pub message : Text
  pub span : Option Span
  pub stack_trace : List StackTraceEntry
  pub notes : List Text

pub data Result (A : Type 0) : Type 0 where
  ok : A → Result A
  err : RuntimeError → Result A
  panic : Result A

unfoldable pub runtime_code : RuntimeErrorKind → Option Text
runtime_code RuntimeErrorKind.type_error = some (text "E745")
runtime_code RuntimeErrorKind.name_error = some (text "E121")
runtime_code RuntimeErrorKind.arity_error = some (text "E119")
runtime_code RuntimeErrorKind.index_error = some (text "E684")
runtime_code RuntimeErrorKind.key_error = some (text "E716")
runtime_code RuntimeErrorKind.division_by_zero = some (text "E805")
runtime_code RuntimeErrorKind.resource_limit = some (text "E1240")
runtime_code RuntimeErrorKind.invalid_command = some (text "E492")
runtime_code _ = none

-- `RuntimeError::coded`
unfoldable pub coded : Text → RuntimeErrorKind → Text → RuntimeError
coded code kind message = record {
  code = some code;
  kind = kind;
  message = message;
  span = none;
  stack_trace = [];
  notes = [];
}

unfoldable pub bare_error : RuntimeErrorKind → Text → RuntimeError
bare_error kind message = record {
  code = runtime_code kind;
  kind = kind;
  message = message;
  span = none;
  stack_trace = [];
  notes = [];
}

-- To split on a computed result and keep the equation.
pub Result-cases :
    {A : Type 0} (r : Result A)
    → ((a : A) × (r ≡ ok a)) ⊎ (((e : RuntimeError) × (r ≡ err e)) ⊎ (r ≡ panic))
Result-cases (ok a) = inl (a, refl)
Result-cases (err e) = inr (inl (e, refl))
Result-cases panic = inr (inr refl)

pub err-ne-panic : {A : Type 0} {e : RuntimeError} → ◌≢◌ {A = Result A} (err e) panic
err-ne-panic h = cc

pub err-ne-ok : {A : Type 0} {e : RuntimeError} {a : A} → ◌≢◌ {A = Result A} (err e) (ok a)
err-ne-ok h = cc
