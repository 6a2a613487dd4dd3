-- ===== src/Runtime/Scheduler/Families/Tick.antt =====
-- src/runtime/scheduler.rs: a tick keeps the families of tasks.
use vim_script.Prelude.{
  ℕ, refl, ◌∙◌, Bool, List, [], ◌∷◌, Option-cases, Bool-cases, inl, inr, get, is_some,
}
use vim_script.Runtime.Error.{Result, ok, err, panic}
use vim_script.Runtime.Value.{Value}
use vim_script.Runtime.Vm.State.{VmRunOutcome}
use vim_script.Runtime.Scheduler.State.{
  TaskState, ScriptTask, Engine, Scheduler, Poll, pending, done, push_ready, collect_wakes,
}
use vim_script.Runtime.Scheduler.Tick.{
  Outcome, resume_task, wait_for, fail_task, await_operation, after_run, run_ready, run_task,
  progressed, deliver, after_poll, poll_queued, poll_one_operation, run_next, after_polling, tick,
}
use vim_script.Runtime.Scheduler.Cancel.{Nested, children_of}
use vim_script.Runtime.Scheduler.Families.{
  Same, Has, Same-refl, Same-trans, Same-of, Has-Same, set_task-Same, enqueue_all-Same,
  resume_by-Same, start_call-Same, run_command-Same,
}

module _ {H Fut : Type 0} where
  await_operation-Same :
      (id : ℕ) (t : ScriptTask) (op : ℕ) (s : Scheduler H Fut)
      → Has id t s
      → Same s (await_operation id t op s).1
  unfolding await_operation resume_task fail_task wait_for
  await_operation-Same id t op s h = elim (Option-cases (get op s.completed_operations)) [
    | inr (result, found) ↦
        rw (found, await_operation) (Same-trans (Same-of refl refl) (resume_by-Same _ _ id _))
    | inl missing ↦
        rw (missing, await_operation)
          (elim (Bool-cases (is_some (get op s.operations))) [
            | inl there ↦ rw there (Same-trans (Same-of refl refl) (set_task-Same id _ _ h))
            | inr unknown ↦ rw unknown (set_task-Same id _ s h)
          ])
  ]

  after_run-Same :
      (e : Engine H Fut) (id : ℕ) (t : ScriptTask) (r : Result VmRunOutcome) (s : Scheduler H Fut)
      → Has id t s
      → Same s (after_run e id t r s).1
  unfolding after_run push_ready
  after_run-Same e id t (ok VmRunOutcome.yielded) s h =
      Same-trans (set_task-Same id _ s h) (Same-of refl refl)
  after_run-Same e id t (ok (VmRunOutcome.completed v)) s h = set_task-Same id _ s h
  after_run-Same e id t (ok (VmRunOutcome.host_call request)) s h = start_call-Same id _ s
  after_run-Same e id t (ok (VmRunOutcome.option_call request)) s h = start_call-Same id _ s
  after_run-Same e id t (ok (VmRunOutcome.command_call request)) s h =
      run_command-Same e id t request s h
  after_run-Same e id t (ok (VmRunOutcome.waiting op)) s h = await_operation-Same id t op s h
  after_run-Same e id t (err x) s h = set_task-Same id _ s h
  after_run-Same e id t panic s h = Same-refl s

  run_ready-Same :
      (e : Engine H Fut) (id : ℕ) (t : ScriptTask) (st : TaskState) (s : Scheduler H Fut)
      → Has id t s
      → Same s (run_ready e id t st s).1
  unfolding run_ready
  run_ready-Same e id t TaskState.ready s h =
      let kept = set_task-Same id _ s h in
      Same-trans kept (after_run-Same e id _ _ _ (Has-Same id t kept h))
  run_ready-Same e id t TaskState.running s h = Same-refl s
  run_ready-Same e id t (TaskState.waiting op) s h = Same-refl s
  run_ready-Same e id t (TaskState.completed v) s h = Same-refl s
  run_ready-Same e id t (TaskState.failed x) s h = Same-refl s
  run_ready-Same e id t TaskState.cancelled s h = Same-refl s

  run_task-Same : (e : Engine H Fut) (id : ℕ) (s : Scheduler H Fut) → Same s (run_task e id s).1
  unfolding run_task children_of
  run_task-Same e id s = elim (Option-cases (get id s.tasks)) [
    | inl missing ↦ rw (missing, run_task) (Same-refl s)
    | inr (t, found) ↦
        rw (found, run_task) (run_ready-Same e id t t.state s (rw found refl, rw found refl))
  ]

  progressed-Same :
      (s : Scheduler H Fut) (r : Outcome H Fut (Unit {0})) → Same s r.1 → Same s (progressed r).1
  unfolding progressed
  progressed-Same s (ok u, s') k = k
  progressed-Same s (err x, s') k = k
  progressed-Same s (panic, s') k = k

  deliver-Same :
      (op : ℕ) (result : Result Value) (s : Scheduler H Fut) → Same s (deliver op result s).1
  unfolding deliver resume_task
  deliver-Same op result s = elim (Option-cases (get op s.waiting)) [
    | inl free ↦ rw (free, deliver) (Same-of refl refl)
    | inr (id, found) ↦
        rw (found, deliver)
          (progressed-Same s _ (Same-trans (Same-of refl refl) (resume_by-Same _ _ id _)))
  ]

  after_poll-Same : (op : ℕ) (p : Poll Fut) (s : Scheduler H Fut) → Same s (after_poll op p s).1
  unfolding after_poll
  after_poll-Same op (pending later) s = Same-of refl refl
  after_poll-Same op (done result) s = Same-trans (Same-of refl refl) (deliver-Same op result _)

  poll_queued-Same :
      (e : Engine H Fut) (queue : List ℕ) (s : Scheduler H Fut) → Same s (poll_queued e queue s).1
  unfolding poll_queued
  poll_queued-Same e [] s = Same-refl s
  poll_queued-Same e (op ∷ rest) s = elim (Option-cases (get op s.operations)) [
    | inl gone ↦ rw (gone, poll_queued) (Same-of refl refl)
    | inr (future, found) ↦
        rw (found, poll_queued)
          (Same-trans (Same-of refl refl) (after_poll-Same op (e.poll future) _))
  ]

  run_next-Same :
      (e : Engine H Fut) (polled : Bool) (queue : List ℕ) (s : Scheduler H Fut)
      → Same s (run_next e polled queue s).1
  unfolding run_next
  run_next-Same e polled [] s = Same-refl s
  run_next-Same e polled (id ∷ rest) s =
      progressed-Same s _ (Same-trans (Same-of refl refl) (run_task-Same e id _))

  after_polling-Same :
      (e : Engine H Fut) (s : Scheduler H Fut) (r : Outcome H Fut Bool)
      → Same s r.1
      → Same s (after_polling e r).1
  unfolding after_polling
  after_polling-Same e s (ok polled, s') k = Same-trans k (run_next-Same e polled s'.ready_queue s')
  after_polling-Same e s (err x, s') k = k
  after_polling-Same e s (panic, s') k = k

  tick-Same : (e : Engine H Fut) (s : Scheduler H Fut) → Same s (tick e s).1
  unfolding tick collect_wakes poll_one_operation
  tick-Same e s = after_polling-Same e s _ (
      Same-trans (Same-trans (Same-of refl refl) (enqueue_all-Same s.wakes _))
        (poll_queued-Same e _ _))

  -- A tick keeps the families in order: each child has a greater id than its parent and exists, so
  -- that a cancellation of any task ends after it too.
  pub tick-Nested : (e : Engine H Fut) (s : Scheduler H Fut) → Nested s → Nested (tick e s).1
  tick-Nested e s n =
      let k = tick-Same e s in
      record {
        above = λ id c m. n.above id c (rw (← k.families id) m);
        known = λ id c m. k.same_tasks c ∙ n.known id c (rw (← k.families id) m);
      }
