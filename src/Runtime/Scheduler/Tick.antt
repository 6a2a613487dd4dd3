-- ===== src/Runtime/Scheduler/Tick.antt =====
-- src/runtime/scheduler.rs: `tick`, which polls one operation and runs one task.
use vim_script.Prelude.{
  ℕ, Bool, true, false, Option, none, some, List, [], ◌∷◌, ◌++◌, Text, text, if◌then◌else◌, get,
  put, remove, is_some, without, text_eq, show_ℕ,
}
use vim_script.Host.{CommandRequest}
use vim_script.Runtime.Value.{Value}
use vim_script.Runtime.Error.{RuntimeErrorKind, RuntimeError, Result, ok, err, panic, coded}
use vim_script.Runtime.Vm.State.{Vm, VmRunOutcome, VmStatus}
use vim_script.Runtime.Vm.Run.{
  run_quantum, complete_command, resume_host_call, resume_await, suspend_for_operation,
}
use vim_script.Runtime.Scheduler.State.{
  TaskState, ScriptTask, Poll, pending, done, Engine, Scheduler, set_task, push_ready,
  collect_wakes, register_boxed,
}

abbrev pub no_host : RuntimeError
no_host = coded (text "E_HOST") RuntimeErrorKind.host_error (text "no host runtime is configured")

unfoldable pub disappeared : Text → RuntimeError
disappeared message = coded (text "E900") RuntimeErrorKind.internal message

unfoldable pub unknown_operation : ℕ → RuntimeError
unknown_operation op = disappeared (text "unknown async operation " ++ show_ℕ op)

abbrev pub Outcome : Type 0 → Type 0 → Type 0 → Type 0
Outcome H Fut A = Result A × Scheduler H Fut

-- `.map(|()| Value::Null)`
unfoldable pub as_null : Result (Unit {0}) → Result Value
as_null (ok u) = ok Value.null
as_null (err e) = err e
as_null panic = panic

module _ {H Fut : Type 0} where
  -- A task whose machine was resumed: it is queued again, or has failed.
  unfoldable pub after_resume :
      ℕ → ScriptTask → Result (Unit {0}) → Vm → Scheduler H Fut → Outcome H Fut (Unit {0})
  after_resume id t (ok u) vm s =
      (ok tt, push_ready id (set_task id (record t { vm = vm; state = TaskState.ready }) s))
  after_resume id t (err e) vm s =
      (ok tt, set_task id (record t { vm = vm; state = TaskState.failed e }) s)
  after_resume id t panic vm s = (panic, s)

  -- `get_mut(&id).ok_or_else(..)?`, a method of the task's machine, and the new state.
  unfoldable pub resume_by :
      Text → (Vm → Result (Unit {0}) × Vm) → ℕ → Scheduler H Fut → Outcome H Fut (Unit {0})
  resume_by message method id s = elim (get id s.tasks) [
    | none ↦ (err (disappeared message), s)
    | some t ↦ let (r, vm) = method t.vm in after_resume id t r vm s
  ]

  unfoldable pub resume_task : ℕ → Result Value → Scheduler H Fut → Outcome H Fut (Unit {0})
  resume_task id result = resume_by (text "waiting task disappeared") (resume_await result) id

  -- `Scheduler::resume_host_call` and `Scheduler::complete_command`
  unfoldable pub resume_call : ℕ → Result ℕ → Scheduler H Fut → Outcome H Fut (Unit {0})
  resume_call id result =
      resume_by (text "host-calling task disappeared") (resume_host_call result) id

  unfoldable pub finish_command : ℕ → Result Value → Scheduler H Fut → Outcome H Fut (Unit {0})
  finish_command id result =
      resume_by (text "command task disappeared") (complete_command result) id

  -- A host call: its future is registered, and the machine goes on with the operation's id.
  unfoldable pub start_call : ℕ → Result Fut → Scheduler H Fut → Outcome H Fut (Unit {0})
  start_call id (ok future) s = let (op, s') = register_boxed future s in resume_call id (ok op) s'
  start_call id (err e) s = resume_call id (err e) s
  start_call id panic s = (panic, s)

  -- A task that waits for an operation.
  unfoldable pub wait_for : ℕ → ℕ → ScriptTask → Scheduler H Fut → Scheduler H Fut
  wait_for id op t s =
      set_task id (record t { state = TaskState.waiting op })
        (record s { waiting = put op id s.waiting })

  -- A command that the host carries out: the machine waits for its future.
  unfoldable pub start_command :
      ℕ → ScriptTask → Result Fut → Scheduler H Fut → Outcome H Fut (Unit {0})
  start_command id t (ok future) s =
      let (op, s') = register_boxed future s in
      (ok tt, wait_for id op (record t { vm = suspend_for_operation op t.vm }) s')
  start_command id t (err e) s = finish_command id (err e) s
  start_command id t panic s = (panic, s)

  -- `.ok_or_else(..).and_then(..)` on the host
  unfoldable pub dispatch_with : Option H → (H → Result Fut) → Result Fut
  dispatch_with none f = err no_host
  dispatch_with (some h) f = f h

  unfoldable pub change_host :
      (H → Result (Unit {0}) × H) → ℕ → Option H → Scheduler H Fut → Outcome H Fut (Unit {0})
  change_host f id none s = finish_command id (err no_host) s
  change_host f id (some h) s =
      let (r, h') = f h in finish_command id (as_null r) (record s { host = some h' })

  unfoldable pub dispatch_prepared : Engine H Fut → H → Result CommandRequest → Result Fut
  dispatch_prepared e h (ok request) = e.dispatch_command h request
  dispatch_prepared e h (err x) = err x
  dispatch_prepared e h panic = panic

  unfoldable pub after_registration :
      Engine H Fut
      → ℕ
      → ScriptTask
      → CommandRequest
      → Option (Result (Unit {0}))
      → Option H
      → Scheduler H Fut
      → Outcome H Fut (Unit {0})
  after_registration e id t request (some r) h s = finish_command id (as_null r) s
  after_registration e id t request none h s =
      start_command id t
        (dispatch_with h (λ host. dispatch_prepared e host (e.prepare_command host request))) s

  unfoldable pub try_registration :
      Engine H Fut
      → ℕ
      → ScriptTask
      → CommandRequest
      → Option H
      → Scheduler H Fut
      → Outcome H Fut (Unit {0})
  try_registration e id t request none s = after_registration e id t request none none s
  try_registration e id t request (some h) s =
      let (r, h') = e.handle_registration_command h request in
      after_registration e id t request r (some h') (record s { host = some h' })

  -- `VmRunOutcome::CommandCall`
  unfoldable pub run_command :
      Engine H Fut → ℕ → ScriptTask → CommandRequest → Scheduler H Fut → Outcome H Fut (Unit {0})
  run_command e id t request s =
      if text_eq request.command.name (text "command")
      then change_host (λ h. e.define_user_command h request.command) id s.host s
      else if text_eq request.command.name (text "delcommand")
      then change_host (λ h. e.delete_user_command h request.command) id s.host s
      else try_registration e id t request s.host s

  unfoldable pub fail_task : ℕ → ScriptTask → RuntimeError → Scheduler H Fut → Scheduler H Fut
  fail_task id t e =
      set_task id
        (record t { state = TaskState.failed e; vm = record t.vm { status = VmStatus.failed e } })

  -- `VmRunOutcome::Waiting`: the operation has a result, or is pending, or is unknown.
  unfoldable pub await_operation : ℕ → ScriptTask → ℕ → Scheduler H Fut → Outcome H Fut (Unit {0})
  await_operation id t op s = elim (get op s.completed_operations) [
    | some result ↦
        resume_task id result (record s { completed_operations = remove op s.completed_operations })
    | none ↦
        if is_some (get op s.operations)
        then (ok tt, wait_for id op t s)
        else (ok tt, fail_task id t (unknown_operation op) s)
  ]

  -- What a quantum's outcome does to its task.
  unfoldable pub after_run :
      Engine H Fut
      → ℕ
      → ScriptTask
      → Result VmRunOutcome
      → Scheduler H Fut
      → Outcome H Fut (Unit {0})
  after_run e id t (ok VmRunOutcome.yielded) s =
      (ok tt, push_ready id (set_task id (record t { state = TaskState.ready }) s))
  after_run e id t (ok (VmRunOutcome.completed v)) s =
      (ok tt, set_task id (record t { state = TaskState.completed v }) s)
  after_run e id t (ok (VmRunOutcome.host_call request)) s =
      start_call id (dispatch_with s.host (λ h. e.dispatch h request)) s
  after_run e id t (ok (VmRunOutcome.option_call request)) s =
      start_call id (dispatch_with s.host (λ h. e.dispatch_option h request)) s
  after_run e id t (ok (VmRunOutcome.command_call request)) s = run_command e id t request s
  after_run e id t (ok (VmRunOutcome.waiting op)) s = await_operation id t op s
  after_run e id t (err x) s = (ok tt, set_task id (record t { state = TaskState.failed x }) s)
  after_run e id t panic s = (panic, s)

  unfoldable pub run_ready :
      Engine H Fut → ℕ → ScriptTask → TaskState → Scheduler H Fut → Outcome H Fut (Unit {0})
  run_ready e id t TaskState.ready s =
      let (r, vm) = run_quantum e.platform s.instruction_quantum t.vm in
      let t' : ScriptTask = record t { vm = vm; state = TaskState.running } in
      after_run e id t' r (set_task id t' s)
  run_ready e id t _ s = (ok tt, s)

  unfoldable pub run_task : Engine H Fut → ℕ → Scheduler H Fut → Outcome H Fut (Unit {0})
  run_task e id s = elim (get id s.tasks) [
    | none ↦ (ok tt, s)
    | some t ↦ run_ready e id t t.state s
  ]

  unfoldable pub progressed : Outcome H Fut (Unit {0}) → Outcome H Fut Bool
  progressed (ok u, s) = (ok true, s)
  progressed (err e, s) = (err e, s)
  progressed (panic, s) = (panic, s)

  -- The result of an operation goes to the task that waits for it, or is kept.
  unfoldable pub deliver : ℕ → Result Value → Scheduler H Fut → Outcome H Fut Bool
  deliver op result s = elim (get op s.waiting) [
    | some id ↦ progressed (resume_task id result (record s { waiting = remove op s.waiting }))
    | none ↦ (ok true, record s { completed_operations = put op result s.completed_operations })
  ]

  unfoldable pub after_poll : ℕ → Poll Fut → Scheduler H Fut → Outcome H Fut Bool
  after_poll op (pending future) s = (ok true, record s { operations = put op future s.operations })
  after_poll op (done result) s =
      deliver op result (record s { operations = remove op s.operations })

  unfoldable pub poll_queued : Engine H Fut → List ℕ → Scheduler H Fut → Outcome H Fut Bool
  poll_queued e [] s = (ok false, s)
  poll_queued e (op ∷ rest) s =
      let s' : Scheduler H Fut = record s {
        operation_queue = rest;
        queued_operations = without op s.queued_operations;
      } in
      elim (get op s.operations) [
        | none ↦ (ok false, s')
        | some future ↦ after_poll op (e.poll future) s'
      ]

  unfoldable pub poll_one_operation : Engine H Fut → Scheduler H Fut → Outcome H Fut Bool
  poll_one_operation e s = poll_queued e s.operation_queue s

  unfoldable pub run_next : Engine H Fut → Bool → List ℕ → Scheduler H Fut → Outcome H Fut Bool
  run_next e polled [] s = (ok polled, s)
  run_next e polled (id ∷ rest) s = progressed (run_task e id (record s { ready_queue = rest }))

  unfoldable pub after_polling : Engine H Fut → Outcome H Fut Bool → Outcome H Fut Bool
  after_polling e (ok polled, s) = run_next e polled s.ready_queue s
  after_polling e (err x, s) = (err x, s)
  after_polling e (panic, s) = (panic, s)

  unfoldable pub tick : Engine H Fut → Scheduler H Fut → Outcome H Fut Bool
  tick e s = after_polling e (poll_one_operation e (collect_wakes s))
