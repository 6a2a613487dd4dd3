-- ===== src/Runtime/Scheduler/Kept.antt =====
-- src/runtime/scheduler.rs: a finished task keeps its result, and `run_until_complete` returns it.
use vim_script.Prelude.{
  ℕ, zero, suc, ◌≡◌, ◌⊎◌, refl, ◌∙◌, ap, Bool, false, Option, none, some, List, [], ◌∷◌, arith,
  Option-cases, inl, inr, get, remove, without, count, ◌==◌,
}
use vim_script.Runtime.Error.{Result, ok, err, panic}
use vim_script.Runtime.Value.{Value}
use vim_script.Runtime.Scheduler.State.{
  TaskState, ScriptTask, Engine, Scheduler, Poll, pending, done, enqueue_operation, collect_wakes,
  result_of_state, task_result, terminal_result,
}
use vim_script.Runtime.Scheduler.Tick.{
  Outcome, resume_task, deliver, after_poll, poll_queued, poll_one_operation, run_next,
  after_polling, tick,
}
use vim_script.Runtime.Scheduler.Drive.{returned, run_until_complete}
use vim_script.Runtime.Scheduler.Sane.{
  queued, queued_task, waits_for, Sane, enqueue_operation-Sane, collect_wakes-Sane,
}
use vim_script.Runtime.Scheduler.Sane.Resume.{no_error}
use vim_script.Runtime.Scheduler.Sane.Tick.{tick-Fine, poll_one_operation-Fine, requeued-Sane}
use vim_script.Runtime.Scheduler.Others.{
  progressed-tasks, resume_by-other, run_task-other, collect_wakes-tasks,
}

finished-unqueued :
    (st : TaskState) (r : Result Value) → result_of_state st ≡ some r → queued st ≡ 0
unfolding result_of_state queued
finished-unqueued TaskState.ready r e = cc
finished-unqueued TaskState.running r e = cc
finished-unqueued (TaskState.waiting op) r e = cc
finished-unqueued (TaskState.completed v) r e = refl
finished-unqueued (TaskState.failed x) r e = refl
finished-unqueued TaskState.cancelled r e = refl

-- A finished task is not queued, and waits for nothing.
finished-queued_task :
    (o : Option ScriptTask) (r : Result Value) → task_result o ≡ some r → queued_task o ≡ 0
unfolding task_result queued_task
finished-queued_task none r e = cc
finished-queued_task (some t) r e = finished-unqueued t.state r e

finished-waits_for :
    (op : ℕ) (o : Option ScriptTask) (r : Result Value)
    → task_result o ≡ some r
    → waits_for op o ≡ false
unfolding task_result waits_for result_of_state
finished-waits_for op none r e = cc
finished-waits_for op (some t) r e = ground arith

module _ {H Fut : Type 0} where
  -- The task that is queued or waits is another one.
  queued-other :
      (id j : ℕ) (rest : List ℕ) (r : Result Value) (s : Scheduler H Fut)
      → s.ready_queue ≡ id ∷ rest
      → Sane s
      → terminal_result j s ≡ some r
      → (id == j) ≡ false
  unfolding terminal_result count
  queued-other id j rest r s q sane finished =
      ground (arith, sane.queue id, finished-queued_task (get j s.tasks) r finished)

  waiting-other :
      (op id j : ℕ) (r : Result Value) (s : Scheduler H Fut)
      → get op s.waiting ≡ some id
      → Sane s
      → terminal_result j s ≡ some r
      → (id == j) ≡ false
  unfolding terminal_result
  waiting-other op id j r s g sane finished =
      ground (arith, sane.waits op id g, finished-waits_for op (get j s.tasks) r finished)

  kept-result :
      (j : ℕ) (r : Result Value) (s s' : Scheduler H Fut)
      → get j s'.tasks ≡ get j s.tasks
      → terminal_result j s ≡ some r
      → terminal_result j s' ≡ some r
  unfolding terminal_result
  kept-result j r s s' same finished = rw same finished

  module _ (j : ℕ) (r : Result Value) where
    deliver-Kept :
        (op : ℕ) (result : Result Value) (s : Scheduler H Fut)
        → Sane s
        → terminal_result j s ≡ some r
        → get j (deliver op result (record s { operations = remove op s.operations })).1.tasks
          ≡ get j s.tasks
    unfolding deliver resume_task
    deliver-Kept op result s sane finished = elim (Option-cases (get op s.waiting)) [
      | inr (id, g) ↦
          rw (g, deliver)
            (ap (get j) (progressed-tasks _)
              ∙ resume_by-other id j (waiting-other op id j r s g sane finished) _ _ _)
      | inl free ↦ rw (free, deliver) refl
    ]

    after_poll-Kept :
        (op : ℕ) (p : Poll Fut) (s : Scheduler H Fut)
        → Sane s
        → terminal_result j s ≡ some r
        → get j (after_poll op p s).1.tasks ≡ get j s.tasks
    unfolding after_poll
    after_poll-Kept op (pending later) s sane finished = refl
    after_poll-Kept op (done result) s sane finished = deliver-Kept op result s sane finished

    poll_queued-Kept :
        (e : Engine H Fut) (queue : List ℕ) (s : Scheduler H Fut)
        → Sane s
        → terminal_result j s ≡ some r
        → get j (poll_queued e queue s).1.tasks ≡ get j s.tasks
    unfolding poll_queued
    poll_queued-Kept e [] s sane finished = refl
    poll_queued-Kept e (op ∷ rest) s sane finished = elim (Option-cases (get op s.operations)) [
      | inl gone ↦ rw (gone, poll_queued) refl
      | inr (future, g) ↦
          rw (g, poll_queued)
            (after_poll-Kept op (e.poll future) _
              (requeued-Sane rest (without op s.queued_operations) s sane)
              (kept-result j r s _ refl finished))
    ]

    run_next-Kept :
        (e : Engine H Fut) (polled : Bool) (queue : List ℕ) (s : Scheduler H Fut)
        → s.ready_queue ≡ queue
        → Sane s
        → terminal_result j s ≡ some r
        → get j (run_next e polled queue s).1.tasks ≡ get j s.tasks
    unfolding run_next
    run_next-Kept e polled [] s q sane finished = refl
    run_next-Kept e polled (id ∷ rest) s q sane finished =
        ap (get j) (progressed-tasks _)
        ∙ run_task-other id j (queued-other id j rest r s q sane finished) e _

    after_polling-Kept :
        (e : Engine H Fut) (x : Outcome H Fut Bool)
        → Sane x.1
        → terminal_result j x.1 ≡ some r
        → get j (after_polling e x).1.tasks ≡ get j x.1.tasks
    unfolding after_polling
    after_polling-Kept e (ok polled, s) sane finished =
        run_next-Kept e polled s.ready_queue s refl sane finished
    after_polling-Kept e (err x, s) sane finished = refl
    after_polling-Kept e (panic, s) sane finished = refl

    -- A tick of a scheduler whose tables are right keeps the result of a task that has
    -- finished: no later poll and no other task changes what a task has returned.
    pub tick-Kept :
        (e : Engine H Fut) (s : Scheduler H Fut)
        → Sane s
        → terminal_result j s ≡ some r
        → terminal_result j (tick e s).1 ≡ some r
    unfolding tick poll_one_operation
    tick-Kept e s sane finished =
        let collected = collect_wakes-Sane s sane in
        let before =
          kept-result j r s (collect_wakes s) (ap (get j) (collect_wakes-tasks s)) finished in
        let polled = kept-result j r _ _ (poll_queued-Kept e _ _ collected before) before in
        kept-result j r _ _
          (after_polling-Kept e _ (poll_one_operation-Fine e _ collected).sane polled) polled

  -- What `run_until_complete` returns, whatever wakes arrive, is the result that its
  -- task has finished with, or a panic of the program, when it starts with tables that are right.
  pub run_until_complete-result :
      (e : Engine H Fut) (fuel : ℕ) (wakes : List ℕ) (id : ℕ) (s : Scheduler H Fut)
      (r : Result Value)
      → Sane s
      → (run_until_complete e fuel wakes id s).0 ≡ returned r
      → (terminal_result id (run_until_complete e fuel wakes id s).1 ≡ some r) ⊎ (r ≡ panic)
  unfolding run_until_complete no_error
  run_until_complete-result e zero wakes id s r sane q = ground arith
  run_until_complete-result e (suc fuel) [] id s r sane q =
      let fine = tick-Fine e s sane in
      ground (arith, fine.clean, run_until_complete-result e fuel [] id (tick e s).1 r fine.sane)
  run_until_complete-result e (suc fuel) (op ∷ later) id s r sane q =
      let fine = tick-Fine e s sane in
      ground (
        arith,
        fine.clean,
        run_until_complete-result e fuel (op ∷ later) id (tick e s).1 r fine.sane,
        run_until_complete-result e fuel later id (enqueue_operation op (tick e s).1) r
            (enqueue_operation-Sane op (tick e s).1 fine.sane),
      )
