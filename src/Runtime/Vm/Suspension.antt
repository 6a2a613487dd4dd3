-- ===== src/Runtime/Vm/Suspension.antt =====
-- src/runtime/vm.rs: a machine that awaits a future is suspended, and goes on with its result.
use vim_script.Prelude.{
  ℕ, suc, zero, ◌<◌, ◌≡◌, ◌≢◌, refl, ap, ◌∙◌, Option, none, some, List, ◌∷◌, arith, length,
}
use vim_script.Bytecode.{Instruction, function_of}
use vim_script.Runtime.Value.{Value}
use vim_script.Runtime.Error.{ok}
use vim_script.Runtime.Vm.State.{
  Vm, CallFrame, VmStatus, StepOutcome, VmRunOutcome, Platform, pop, push, set_frame,
}
use vim_script.Runtime.Vm.Lookups.{prototype}
use vim_script.Runtime.Vm.Step.{await, exec, fetch, run_in, run_instruction, on_budget, step}
use vim_script.Runtime.Vm.Run.{
  set_status, after_step, run_steps, from_status, run_quantum, resume_with, resume_await,
}
use vim_script.Runtime.Vm.Safety.Steps.{instruction_in, spent}

fetch-found :
    (f : CallFrame) (vm : Vm) (i : Instruction)
    → instruction_in (function_of f.module_of f.function) f.instruction_pointer ≡ some i
    → fetch f vm ≡ (ok i, vm)
unfolding fetch prototype instruction_in
fetch-found f vm i at = ground (arith, at)

-- The running frame behind the instruction that it was at.
abbrev pub advanced : CallFrame → CallFrame
advanced f = record f { instruction_pointer = suc f.instruction_pointer }

module _ (p : Platform) (f : CallFrame) (fs : List CallFrame) (operation : ℕ)
    (rest : List Value) where
  run_in-await :
      (vm : Vm)
      → vm.frames ≡ f ∷ fs
      → vm.stack ≡ Value.future operation ∷ rest
      → instruction_in (function_of f.module_of f.function) f.instruction_pointer
        ≡ some Instruction.await
      → run_in p f vm
        ≡ (ok (StepOutcome.waiting operation), record vm { stack = rest; frames = advanced f ∷ fs })
  unfolding run_in set_frame exec await pop
  run_in-await vm ef es at = rw (fetch-found f vm Instruction.await at) (ground (arith, ef, es))

  on_budget-await :
      (b : Option ℕ) (vm : Vm)
      → vm.instruction_budget ≡ b
      → b ≢ some 0
      → vm.frames ≡ f ∷ fs
      → vm.stack ≡ Value.future operation ∷ rest
      → instruction_in (function_of f.module_of f.function) f.instruction_pointer
        ≡ some Instruction.await
      → on_budget p b vm ≡ (
        ok (StepOutcome.waiting operation),
        record vm { stack = rest; frames = advanced f ∷ fs; instruction_budget = spent b },
      )
  unfolding on_budget run_instruction
  on_budget-await none vm eb left ef es at =
      ap (λ gs. run_instruction p gs vm) ef ∙ run_in-await vm ef es at ∙ ground (arith, eb)
  on_budget-await (some zero) vm eb left ef es at = absurd (left refl)
  on_budget-await (some (suc n)) vm eb left ef es at =
      ap (λ gs. run_instruction p gs (record vm { instruction_budget = some n })) ef
      ∙ run_in-await (record vm { instruction_budget = some n }) ef es at

  -- A machine that is ready, has a budget left and is at an `Await` with a pending operation on its stack: a
  -- quantum ends with that operation as what is waited for, and leaves the machine suspended on it, without
  -- the future. Resumed with a result, the machine is behind the `Await`, with the result in place of the
  -- future, ready, and with one instruction paid for.
  pub await-resumed :
      (vm : Vm) (quantum : ℕ) (result : Value)
      → vm.status ≡ VmStatus.ready
      → vm.instruction_budget ≢ some 0
      → vm.frames ≡ f ∷ fs
      → vm.stack ≡ Value.future operation ∷ rest
      → instruction_in (function_of f.module_of f.function) f.instruction_pointer
        ≡ some Instruction.await
      → length rest < vm.limits.max_stack_size
      → (waiting : Vm) × (run_quantum p (suc quantum) vm
          ≡ (ok (VmRunOutcome.waiting operation), waiting))
        × (waiting.status ≡ VmStatus.suspended operation)
        × (waiting.stack ≡ rest)
        × (resume_await (ok result) waiting ≡ (
          ok tt,
          record vm {
            stack = result ∷ rest;
            frames = advanced f ∷ fs;
            instruction_budget = spent vm.instruction_budget;
          },
        ))
  unfolding run_quantum from_status run_steps step after_step set_status resume_await resume_with
      push
  await-resumed vm quantum result ready left ef es at room = (
    record vm {
      stack = rest;
      frames = advanced f ∷ fs;
      instruction_budget = spent vm.instruction_budget;
      status = VmStatus.suspended operation;
    },
    ap (λ st. from_status p st (suc quantum) vm) ready
        ∙ ap (λ x. after_step (run_steps p quantum) x.0 x.1)
            (on_budget-await vm.instruction_budget (set_status VmStatus.running vm) refl left ef es
              at),
    refl,
    refl,
    ground (arith, room, ready),
  )
