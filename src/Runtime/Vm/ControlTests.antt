-- ===== src/Runtime/Vm/ControlTests.antt =====
-- src/runtime/vm.rs: calls, handlers and suspension at concrete inputs.
use vim_script.Prelude.{
  ℕ, ◌≡◌, refl, true, false, none, some, List, [], ◌∷◌, arith, text, pos, if◌then◌else◌,
}
use vim_script.Ast.{BinaryOperator}
use vim_script.Bytecode.{Instruction, find_function, function_of}
use vim_script.Runtime.Value.{Value}
use vim_script.Runtime.Error.{RuntimeErrorKind, RuntimeError, ok, bare_error}
use vim_script.Runtime.Vm.State.{Vm, CallFrame, ExceptionFrame, StepOutcome, VmStatus, VmRunOutcome}
use vim_script.Runtime.Vm.Calls.{
  return, throw, dispatch_catchable_error, error_text, is_uncatchable,
}
use vim_script.Runtime.Vm.Step.{try_begin}
use vim_script.Runtime.Vm.Run.{resume_await, run_quantum, no_context}
use vim_script.Runtime.Vm.Control.{return-to_caller, throw-to_handler, dispatch-to_handler}
use vim_script.Runtime.Vm.Safety.Steps.{instruction_in, spent}
use vim_script.Runtime.Vm.Suspension.{advanced, await-resumed}
use vim_script.Runtime.Vm.Tests.{plain, script, module_with}

abbrev frame_at : ℕ → CallFrame
frame_at ip = record {
  module_of = module_with (script 0 0 (Instruction.binary BinaryOperator.remainder ∷ []) [] ∷ []);
  function = 0;
  instruction_pointer = ip;
  stack_base = 1;
  locals = [];
  closure = none;
  iterators = [];
}

abbrev machine : List Value → Vm
machine stack = record {
  module_of = module_with [];
  stack = stack;
  frames = frame_at 0 ∷ [];
  exceptions = [];
  globals = [];
  status = VmStatus.running;
  instruction_budget = none;
  limits = record {
    max_instructions = none;
    max_call_depth = 256;
    max_stack_size = 65_536;
    max_collection_size = 1_000;
    max_tasks = 8;
  };
  host_context = no_context;
  next_address = 0;
}

abbrev handler_of : ℕ → ExceptionFrame
handler_of depth = record { frame_depth = depth; stack_depth = 0; handler_ip = 5 }

-- A function returns with a value and a handler left over.
return-to_caller_example :
    return (record (machine []) {
      frames = frame_at 3 ∷ frame_at 4 ∷ [];
      stack = Value.integer (pos 42) ∷ Value.null ∷ Value.bool true ∷ [];
      exceptions = handler_of 1 ∷ handler_of 0 ∷ [];
    })
    ≡ (
      ok StepOutcome.continue,
      record (machine []) {
        stack = Value.integer (pos 42) ∷ Value.bool true ∷ [];
        frames = frame_at 4 ∷ [];
        exceptions = handler_of 0 ∷ [];
      },
    )
return-to_caller_example =
    return-to_caller (machine []) (frame_at 3) (frame_at 4) [] (Value.integer (pos 42))
      (Value.null ∷ []) (Value.bool true ∷ []) (handler_of 1 ∷ []) (handler_of 0 ∷ []) refl
      (omega arith, tt) (omega arith, tt) (omega arith)

throw-to_handler_example :
    throw plain (record (try_begin 9 0 (machine [])).1 {
      frames = frame_at 3 ∷ frame_at 4 ∷ [];
      stack = Value.integer (pos 42) ∷ Value.null ∷ [];
    })
    ≡ (
      ok StepOutcome.continue,
      record (machine []) { stack = Value.integer (pos 42) ∷ []; frames = frame_at 9 ∷ [] },
    )
throw-to_handler_example =
    throw-to_handler plain (machine []) 9 (frame_at 0) (frame_at 4) [] (frame_at 3 ∷ [])
      (Value.integer (pos 42)) (Value.null ∷ []) refl (omega arith)

abbrev type_problem : RuntimeError
type_problem = bare_error RuntimeErrorKind.type_error (text "bad type")

dispatch-to_handler_example :
    dispatch_catchable_error type_problem (record (try_begin 9 0 (machine [])).1 {
      frames = frame_at 3 ∷ frame_at 4 ∷ [];
      stack = Value.null ∷ [];
    })
    ≡ (if is_uncatchable type_problem.kind
        then (
          ok false,
          record (try_begin 9 0 (machine [])).1 {
            frames = frame_at 3 ∷ frame_at 4 ∷ [];
            stack = Value.null ∷ [];
          },
        )
        else (
          ok true,
          record (machine []) {
            stack = Value.string (error_text type_problem) ∷ [];
            frames = frame_at 9 ∷ [];
          },
        ))
dispatch-to_handler_example =
    dispatch-to_handler (machine []) type_problem 9 (frame_at 0) (frame_at 4) [] (frame_at 3 ∷ [])
      (Value.null ∷ []) refl

-- The machine at an `Await`.
abbrev awaiting_frame : CallFrame
awaiting_frame = record (frame_at 0) {
  module_of = module_with (script 0 0 (Instruction.await ∷ []) [] ∷ []);
}

abbrev awaiting : Vm
awaiting = record (machine (Value.future 3 ∷ [])) {
  frames = awaiting_frame ∷ [];
  status = VmStatus.ready;
}

at_await : instruction_in (function_of awaiting_frame.module_of 0) 0 ≡ some Instruction.await
unfolding instruction_in find_function
at_await = refl

await-resumed_example :
    (waiting : Vm) × (run_quantum plain 10 awaiting ≡ (ok (VmRunOutcome.waiting 3), waiting))
    × (waiting.status ≡ VmStatus.suspended 3)
    × (waiting.stack ≡ [])
    × (resume_await (ok (Value.bool true)) waiting ≡ (
      ok tt,
      record awaiting {
        stack = Value.bool true ∷ [];
        frames = advanced awaiting_frame ∷ [];
        instruction_budget = spent awaiting.instruction_budget;
      },
    ))
await-resumed_example =
    await-resumed plain awaiting_frame [] 3 [] awaiting 9 (Value.bool true) refl (λ e. cc) refl refl
      at_await (omega arith)
