-- ===== src/Runtime/Vm/Tests.antt =====
-- src/runtime/vm.rs: programs that run, and the theorems on machines at concrete inputs.
use vim_script.Prelude.{
  ℕ, ◌+◌, ◌-◌, ◌*◌, ◌≡◌, refl, false, none, some, List, [], ◌∷◌, arith, text, pos, magnitude, ltb,
  ◌==◌, if◌then◌else◌, ◌+ℤ◌,
}
use vim_script.Ast.{BinaryOperator}
use vim_script.Bytecode.{BytecodeModule, FunctionPrototype, Instruction, Constant, find_function}
use vim_script.Runtime.Value.{Value, FloatOps, Comparison}
use vim_script.Runtime.Error.{Result, ok}
use vim_script.Runtime.Vm.State.{
  Vm, Platform, VmRunOutcome, default_limits, pop, push, set_frame, unwind,
}
use vim_script.Runtime.Arithmetic.{binary, numeric, checked, integer_or_overflow}
use vim_script.Runtime.Vm.Lookups.{prototype, constant_value}
use vim_script.Runtime.Vm.Calls.{return, leave_frame, pop_or_null, retain_below}
use vim_script.Runtime.Vm.Step.{
  step, on_budget, run_instruction, run_in, fetch, exec, load_local, store_local,
  binary_instruction,
}
use vim_script.Runtime.Vm.Run.{started, with_globals, set_status, after_step, run_steps, run}
use vim_script.Runtime.Vm.Safety.Calls.{BuiltinsReturn, Stepped}
use vim_script.Runtime.Vm.Safety.Steps.{AtRemainder, spend, step-Stepped}
use vim_script.Runtime.Vm.Safety.Run.{Within, Aborts, run_steps-Within}
use vim_script.Runtime.Vm.Safety.Ends.{default_envelope, with_globals-Live, run-with_globals}

-- Patterns that stand for the natural numbers up to a thousand, and nothing else.
abbrev small_floats : FloatOps
small_floats = record {
  of_i64 = λ n. magnitude n;
  negated = λ x. x;
  sum = λ x y. x + y;
  difference = λ x y. x - y;
  product = λ x y. x * y;
  quotient = λ x y. x;
  partial_cmp = λ x y.
      if x == y then Comparison.same else if ltb x y then Comparison.below else Comparison.above;
  parse = λ s. none;
  show = λ x. x ∷ [];
}

abbrev pub plain : Platform
plain = record {
  floats = small_floats;
  debug = λ v. text "value";
  debug_text = λ s. s;
  env_set = λ s. false;
  builtin_contains = λ s. false;
  builtin_call = λ s vs. ok Value.null;
}

plain-BuiltinsReturn : BuiltinsReturn plain
plain-BuiltinsReturn name arguments e = cc

-- A function of no parameters.
abbrev pub script : ℕ → ℕ → List Instruction → List Constant → FunctionPrototype
script id locals code constants = record {
  id = id;
  name = none;
  arity = 0;
  optional_parameters = 0;
  variadic = false;
  local_count = locals;
  capture_count = 0;
  asynchronous = false;
  code = code;
  constants = constants;
  spans = [];
  handlers = [];
}

abbrev pub module_with : List FunctionPrototype → BytecodeModule
module_with functions = record {
  source = record { index = 0 };
  entrypoint = 0;
  functions = functions;
}

-- `let x = 40 + 2`, `return x`, with `x` in a slot
abbrev pub adding : FunctionPrototype
adding =
    script 0 1
      (Instruction.load_constant 0
        ∷ Instruction.load_constant 1
        ∷ Instruction.binary BinaryOperator.add
        ∷ Instruction.store_local 0
        ∷ Instruction.load_local 0
        ∷ Instruction.return
        ∷ [])
      (Constant.integer (pos 40) ∷ Constant.integer (pos 2) ∷ [])

abbrev pub adding_vm : Vm
adding_vm = started (module_with (adding ∷ [])) [] adding

pub adding_starts : with_globals (module_with (adding ∷ [])) [] ≡ ok adding_vm
unfolding with_globals started find_function
adding_starts = refl

adding_runs : (run_steps plain 6 adding_vm).0 ≡ ok (VmRunOutcome.completed (Value.integer (pos 42)))
unfolding run_steps after_step started set_status default_limits step on_budget run_instruction
    run_in fetch prototype exec load_local store_local constant_value binary_instruction return
    leave_frame pop_or_null pop push set_frame unwind retain_below binary numeric checked
    integer_or_overflow ◌+ℤ◌ find_function
adding_runs = refl

step-Stepped_example :
    Stepped
      (spend default_envelope)
      (AtRemainder adding_vm)
      (step plain adding_vm).0
      (step plain adding_vm).1
step-Stepped_example =
    step-Stepped plain plain-BuiltinsReturn adding_vm
      (with_globals-Live (module_with (adding ∷ [])) [] adding_vm adding_starts)

run_steps-Within_example :
    Within
      (Aborts plain 6 adding_vm)
      6
      default_envelope
      (run_steps plain 6 adding_vm).0
      (run_steps plain 6 adding_vm).1
run_steps-Within_example =
    run_steps-Within plain plain-BuiltinsReturn 6 default_envelope adding_vm
      (with_globals-Live (module_with (adding ∷ [])) [] adding_vm adding_starts)

run-with_globals_example : (x : Result Value × Vm) × (run plain 1 10_000_001 adding_vm ≡ some x)
run-with_globals_example =
    run-with_globals plain plain-BuiltinsReturn (module_with (adding ∷ [])) [] adding_vm 0
      10_000_001 adding_starts (omega arith)
