-- ===== src/Runtime/Scheduler/Drive.antt =====
-- src/runtime/scheduler.rs: cancellation, and the loops that drive the scheduler.
use vim_script.Prelude.{
  ℕ, zero, suc, Bool, true, false, Option, none, some, List, [], ◌∷◌, text, get, remove, without,
}
use vim_script.Runtime.Value.{Value}
use vim_script.Runtime.Error.{RuntimeErrorKind, RuntimeError, Result, ok, err, panic, coded}
use vim_script.Runtime.Vm.State.{VmStatus}
use vim_script.Runtime.Scheduler.State.{
  TaskState, ScriptTask, Engine, Scheduler, set_task, enqueue_operation, terminal_result,
}
use vim_script.Runtime.Scheduler.Tick.{tick}

-- The error that a cancelled task's machine has failed with.
abbrev pub cancelled_error : RuntimeError
cancelled_error =
    coded (text "E_CANCELLED") RuntimeErrorKind.cancelled (text "script task cancelled")

-- How a loop ends: it returns, or waits for a wake when none is left, or its fuel is used up.
pub data Driven (A : Type 0) : Type 0 where
  returned : Result A → Driven A
  blocked out_of_fuel : Driven A

module _ {H Fut : Type 0} where
  unfoldable pub forget_operation : ℕ → Scheduler H Fut → Scheduler H Fut
  forget_operation op s = record s {
    waiting = remove op s.waiting;
    operations = remove op s.operations;
    completed_operations = remove op s.completed_operations;
    queued_operations = without op s.queued_operations;
  }

  unfoldable pub forget_awaited : TaskState → Scheduler H Fut → Scheduler H Fut
  forget_awaited (TaskState.waiting op) s = forget_operation op s
  forget_awaited _ s = s

  unfoldable pub mark_cancelled : ℕ → ScriptTask → Scheduler H Fut → Scheduler H Fut
  mark_cancelled id t s =
      set_task id
        (record t {
          state = TaskState.cancelled;
          vm = record t.vm { status = VmStatus.failed cancelled_error };
        })
        (record s { ready_queue = without id s.ready_queue })

  -- What `cancel` does to a task after its children.
  unfoldable pub cancel_one : ℕ → Scheduler H Fut → Scheduler H Fut
  cancel_one id s = elim (get id s.tasks) [
    | none ↦ record s { ready_queue = without id s.ready_queue }
    | some t ↦ mark_cancelled id t (forget_awaited t.state s)
  ]

  unfoldable pub cancel_each :
      (ℕ → Scheduler H Fut → Option (Bool × Scheduler H Fut))
      → List ℕ
      → Scheduler H Fut
      → Option (Scheduler H Fut)
  cancel_each method [] s = some s
  cancel_each method (child ∷ children) s = elim (method child s) [
    | none ↦ none
    | some (b, s') ↦ cancel_each method children s'
  ]

  unfoldable pub finish_cancel : ℕ → Option (Scheduler H Fut) → Option (Bool × Scheduler H Fut)
  finish_cancel id none = none
  finish_cancel id (some s) = some (true, cancel_one id s)

  -- `none` is a call that is nested deeper than the fuel.
  unfoldable pub cancel : ℕ → ℕ → Scheduler H Fut → Option (Bool × Scheduler H Fut)
  unfolding finish_cancel
  cancel zero id s = none
  cancel (suc fuel) id s = elim (get id s.tasks) [
    | none ↦ some (false, s)
    | some t ↦ finish_cancel id (cancel_each (cancel fuel) t.children s)
  ]

  -- `wakes` are the operations that `wake_receiver.recv()` gets, one after another, while
  -- the loop has nothing to do.
  unfoldable pub run_until_complete :
      Engine H Fut → ℕ → List ℕ → ℕ → Scheduler H Fut → Driven Value × Scheduler H Fut
  run_until_complete e zero wakes id s = (out_of_fuel, s)
  run_until_complete e (suc fuel) wakes id s = elim (terminal_result id s) [
    | some result ↦ (returned result, s)
    | none ↦
        let (r, s') = tick e s in
        elim r [
          | ok progressed ↦ elim progressed [
            | true ↦ run_until_complete e fuel wakes id s'
            | false ↦ elim wakes [
              | [] ↦ (blocked, s')
              | op ∷ later ↦ run_until_complete e fuel later id (enqueue_operation op s')
            ]
          ]
          | err x ↦ (returned (err x), s')
          | panic ↦ (returned panic, s')
        ]
  ]

  unfoldable pub run_until_stalled :
      Engine H Fut → ℕ → Scheduler H Fut → Driven (Unit {0}) × Scheduler H Fut
  run_until_stalled e zero s = (out_of_fuel, s)
  run_until_stalled e (suc fuel) s =
      let (r, s') = tick e s in
      elim r [
        | ok progressed ↦ elim progressed [
          | true ↦ run_until_stalled e fuel s'
          | false ↦ (returned (ok tt), s')
        ]
        | err x ↦ (returned (err x), s')
        | panic ↦ (returned panic, s')
      ]
