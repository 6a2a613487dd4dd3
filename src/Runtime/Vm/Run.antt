-- ===== src/Runtime/Vm/Run.antt =====
-- src/runtime/vm.rs: making a machine, running it for a quantum, and resuming it.
use vim_script.Prelude.{
  ℕ, zero, suc, Bool, true, false, Option, none, some, List, [], ◌∷◌, ◌++◌, Text, text, replicate,
  show_ℕ,
}
use vim_script.Bytecode.{BytecodeModule, FunctionPrototype, function_of}
use vim_script.Host.{HostContext}
use vim_script.Runtime.Value.{Value}
use vim_script.Runtime.Error.{RuntimeErrorKind, RuntimeError, Result, ok, err, panic, bare_error}
use vim_script.Runtime.Vm.State.{
  Vm, VmStatus, StepOutcome, VmRunOutcome, Platform, M, ◌>>◌, modify, raise, default_limits, push,
}
use vim_script.Runtime.Vm.Calls.{dispatch_catchable_error}
use vim_script.Runtime.Vm.Step.{step}

-- `HostContext::default()`
abbrev pub no_context : HostContext
no_context = record {
  script_name = none;
  current_buffer = none;
  current_window = none;
  current_tab = none;
}

unfoldable pub started : BytecodeModule → List (Text × Value) → FunctionPrototype → Vm
started m globals entry = record {
  module_of = m;
  stack = [];
  frames =
      record {
        module_of = m;
        function = m.entrypoint;
        instruction_pointer = 0;
        stack_base = 0;
        locals = replicate entry.local_count Value.null;
        closure = none;
        iterators = [];
      }
      ∷ [];
  exceptions = [];
  globals = globals;
  status = VmStatus.ready;
  instruction_budget = default_limits.max_instructions;
  limits = default_limits;
  host_context = no_context;
  next_address = 0;
}

-- `Vm::with_globals`
unfoldable pub with_globals : BytecodeModule → List (Text × Value) → Result Vm
unfolding started
with_globals m globals = elim (function_of m m.entrypoint) [
  | some entry ↦ ok (started m globals entry)
  | none ↦ err (bare_error RuntimeErrorKind.internal (text "entrypoint function is missing"))
]

unfoldable pub set_status : VmStatus → Vm → Vm
set_status status vm = record vm { status = status }

-- After an error: the loop goes on in a handler, or the machine has failed.
unfoldable pub after_dispatch : M VmRunOutcome → RuntimeError → Result Bool → M VmRunOutcome
after_dispatch rest e (ok true) vm = rest vm
after_dispatch rest e (ok false) vm = (err e, set_status (VmStatus.failed e) vm)
after_dispatch rest e (err other) vm = (err other, vm)
after_dispatch rest e panic vm = (panic, vm)

unfoldable pub after_step : M VmRunOutcome → Result StepOutcome → M VmRunOutcome
after_step rest (ok StepOutcome.continue) vm = rest vm
after_step rest (ok (StepOutcome.host_call r)) vm =
    (ok (VmRunOutcome.host_call r), set_status VmStatus.ready vm)
after_step rest (ok (StepOutcome.option_call r)) vm =
    (ok (VmRunOutcome.option_call r), set_status VmStatus.ready vm)
after_step rest (ok (StepOutcome.command_call r)) vm =
    (ok (VmRunOutcome.command_call r), set_status VmStatus.ready vm)
after_step rest (ok (StepOutcome.waiting o)) vm =
    (ok (VmRunOutcome.waiting o), set_status (VmStatus.suspended o) vm)
after_step rest (ok (StepOutcome.completed v)) vm =
    (ok (VmRunOutcome.completed v), set_status (VmStatus.completed v) vm)
after_step rest (err e) vm =
    let (r, vm') = dispatch_catchable_error e vm in after_dispatch rest e r vm'
after_step rest panic vm = (panic, vm)

-- The result of a resumption: pushed, or the error handed to a handler.
after_resume : RuntimeError → Result Bool → M (Unit {0})
after_resume e (ok true) vm = (ok tt, set_status VmStatus.ready vm)
after_resume e (ok false) vm = (err e, set_status (VmStatus.failed e) vm)
after_resume e (err other) vm = (err other, vm)
after_resume e panic vm = (panic, vm)

unfoldable pub resume_with : Result Value → M (Unit {0})
unfolding after_resume set_status
resume_with (ok v) vm = (push v >> modify (set_status VmStatus.ready)) vm
resume_with (err e) vm = let (r, vm') = dispatch_catchable_error e vm in after_resume e r vm'
resume_with panic vm = (panic, vm)

-- `Vm::complete_command`
unfoldable pub complete_command : Result Value → M (Unit {0})
unfolding resume_with
complete_command r = resume_with r

future_of : Result ℕ → Result Value
future_of (ok operation) = ok (Value.future operation)
future_of (err e) = err e
future_of panic = panic

-- `Vm::resume_host_call`
unfoldable pub resume_host_call : Result ℕ → M (Unit {0})
unfolding resume_with future_of
resume_host_call r = resume_with (future_of r)

resume_suspended : VmStatus → Result Value → M (Unit {0})
resume_suspended (VmStatus.suspended o) r = resume_with r
resume_suspended _ r =
    raise RuntimeErrorKind.internal (text "cannot resume a VM that is not suspended")

-- `Vm::resume_await`
unfoldable pub resume_await : Result Value → M (Unit {0})
unfolding resume_suspended resume_with
resume_await r vm = resume_suspended vm.status r vm

-- `Vm::suspend_for_operation`
unfoldable pub suspend_for_operation : ℕ → Vm → Vm
unfolding set_status
suspend_for_operation operation = set_status (VmStatus.suspended operation)

module _ (p : Platform) where
  -- `for _ in 0..quantum` of `run_quantum`
  unfoldable pub run_steps : ℕ → M VmRunOutcome
  unfolding set_status
  run_steps zero vm = (ok VmRunOutcome.yielded, set_status VmStatus.ready vm)
  run_steps (suc n) vm = let (r, vm') = step p vm in after_step (run_steps n) r vm'

  unfoldable pub from_status : VmStatus → ℕ → M VmRunOutcome
  from_status (VmStatus.completed v) quantum vm = (ok (VmRunOutcome.completed v), vm)
  from_status _ quantum vm = run_steps quantum (set_status VmStatus.running vm)

  unfoldable pub run_quantum : ℕ → M VmRunOutcome
  unfolding from_status
  run_quantum quantum vm = from_status vm.status quantum vm

  needs_scheduler : Text → M Value
  needs_scheduler what = raise RuntimeErrorKind.host_error what

  unfoldable pub run_result :
      (Vm → Option (Result Value × Vm)) → Result VmRunOutcome → Vm → Option (Result Value × Vm)
  unfolding needs_scheduler
  run_result again (err e) vm = some (err e, vm)
  run_result again panic vm = some (panic, vm)
  run_result again (ok (VmRunOutcome.completed v)) vm = some (ok v, vm)
  run_result again (ok VmRunOutcome.yielded) vm = again vm
  run_result again (ok (VmRunOutcome.host_call r)) vm = some (
      needs_scheduler
        (text "host call " ++ (r.function ++ text " requires a scheduler and host runtime")) vm)
  run_result again (ok (VmRunOutcome.option_call r)) vm = some (
      needs_scheduler
        (text "option access " ++ (r.name ++ text " requires a scheduler and host runtime")) vm)
  run_result again (ok (VmRunOutcome.command_call r)) vm = some (
      needs_scheduler
        (text "command " ++ (r.command.name ++ text " requires a scheduler and host runtime")) vm)
  run_result again (ok (VmRunOutcome.waiting o)) vm = some (
      needs_scheduler
        (text "VM suspended on operation " ++ (show_ℕ o ++ text " without a scheduler")) vm)

  -- `Vm::run` in rounds of one quantum, which the source takes as `usize::MAX`. `none` is a run
  -- that has not ended in that many rounds.
  unfoldable pub run : (rounds quantum : ℕ) → Vm → Option (Result Value × Vm)
  run zero quantum vm = none
  run (suc rounds) quantum vm =
      let (r, vm') = run_quantum quantum vm in run_result (run rounds quantum) r vm'
