-- ===== src/Runtime/Scheduler/Sane.antt =====
-- src/runtime/scheduler.rs: the invariant of the scheduler's tables, and the ways in which the
-- scheduler changes one task.
pub mod Resume
pub mod Tick
use vim_script.Prelude.{
  ℕ, ◌<◌, ◌≤◌, ◌≡◌, ◌≢◌, Bool, true, false, Option, none, some, List, [], ◌∷◌, arith, get, get-put,
  is_some, count, count-append, ◌==◌,
}
use vim_script.Runtime.Scheduler.State.{
  TaskState, ScriptTask, Scheduler, set_task, push_ready, enqueue_operation, enqueue_all,
  collect_wakes,
}
use vim_script.Runtime.Scheduler.Tick.{wait_for}

-- How often a task in this state stands in the queue of the tasks that are ready.
unfoldable pub queued : TaskState → ℕ
queued TaskState.ready = 1
queued _ = 0

unfoldable pub queued_task : Option ScriptTask → ℕ
queued_task none = 0
queued_task (some t) = queued t.state

-- That the task waits for the operation.
unfoldable pub waits_for : ℕ → Option ScriptTask → Bool
waits_for op none = false
waits_for op (some t) = elim t.state [ TaskState.waiting w ↦ w == op | _ ↦ false ]

-- Each ready task stands in the queue once, and no other task does; the task that `waiting` gives
-- for an operation waits for that operation, which is pending; and the ids that are to
-- be given out are unused.
pub record Sane {H Fut : Type 0} (s : Scheduler H Fut) : Type 0 where
  pub queue : (id : ℕ) → count id s.ready_queue ≡ queued_task (get id s.tasks)
  pub waits : (op id : ℕ) → get op s.waiting ≡ some id → waits_for op (get id s.tasks) ≡ true
  pub pending_waits :
      (op id : ℕ) → get op s.waiting ≡ some id → is_some (get op s.operations) ≡ true
  pub fresh_tasks : (id : ℕ) → s.next_task_id ≤ id → get id s.tasks ≡ none
  pub fresh_operations : (op : ℕ) → s.next_operation_id ≤ op → get op s.operations ≡ none

-- The task is in no queue, and no operation's result will be given to it.
pub record Unattended {H Fut : Type 0} (id : ℕ) (s : Scheduler H Fut) : Type 0 where
  pub unqueued : count id s.ready_queue ≡ 0
  pub unawaited : (op : ℕ) → get op s.waiting ≢ some id
  pub known : id < s.next_task_id

module _ {H Fut : Type 0} where
  pub settle-Sane :
      (id : ℕ) (t : ScriptTask) (s : Scheduler H Fut)
      → queued t.state ≡ 0
      → Sane s
      → Unattended id s
      → Sane (set_task id t s)
  unfolding set_task queued_task
  settle-Sane id t s q sane un = record {
    queue = λ j. ground (arith, get-put id j t s.tasks, sane.queue j, un.unqueued);
    waits = λ op j g. ground (arith, get-put id j t s.tasks, sane.waits op j g, un.unawaited op);
    pending_waits = λ op j g. sane.pending_waits op j g;
    fresh_tasks = λ j n. ground (arith, get-put id j t s.tasks, sane.fresh_tasks j n, un.known);
    fresh_operations = sane.fresh_operations;
  }

  pub requeue-Sane :
      (id : ℕ) (t : ScriptTask) (s : Scheduler H Fut)
      → queued t.state ≡ 1
      → Sane s
      → Unattended id s
      → Sane (push_ready id (set_task id t s))
  unfolding set_task push_ready queued_task count
  requeue-Sane id t s q sane un = record {
    queue = λ j. ground (
      arith,
      get-put id j t s.tasks,
      sane.queue j,
      un.unqueued,
      count-append j s.ready_queue (id ∷ []),
    );
    waits = λ op j g. ground (arith, get-put id j t s.tasks, sane.waits op j g, un.unawaited op);
    pending_waits = λ op j g. sane.pending_waits op j g;
    fresh_tasks = λ j n. ground (arith, get-put id j t s.tasks, sane.fresh_tasks j n, un.known);
    fresh_operations = sane.fresh_operations;
  }

  pub wait_for-Sane :
      (id op : ℕ) (t : ScriptTask) (s : Scheduler H Fut)
      → is_some (get op s.operations) ≡ true
      → Sane s
      → Unattended id s
      → Sane (wait_for id op t s)
  unfolding set_task wait_for queued_task queued waits_for
  wait_for-Sane id op t s q sane un = record {
    queue = λ j. ground (
      arith,
      get-put id j (record t { state = TaskState.waiting op }) s.tasks,
      sane.queue j,
      un.unqueued,
    );
    waits = λ w j g. ground (
      arith,
      get-put id j (record t { state = TaskState.waiting op }) s.tasks,
      sane.waits w j,
      un.unawaited w,
      get-put op w id s.waiting,
    );
    pending_waits = λ w j g. ground (arith, get-put op w id s.waiting, sane.pending_waits w j);
    fresh_tasks = λ j n. ground (
      arith,
      get-put id j (record t { state = TaskState.waiting op }) s.tasks,
      sane.fresh_tasks j n,
      un.known,
    );
    fresh_operations = sane.fresh_operations;
  }

  pub enqueue_operation-Sane :
      (op : ℕ) (s : Scheduler H Fut) → Sane s → Sane (enqueue_operation op s)
  unfolding enqueue_operation
  enqueue_operation-Sane op s sane = ground arith

  pub enqueue_all-Sane : (ops : List ℕ) (s : Scheduler H Fut) → Sane s → Sane (enqueue_all ops s)
  unfolding enqueue_all
  enqueue_all-Sane [] s sane = sane
  enqueue_all-Sane (op ∷ ops) s sane =
      enqueue_all-Sane ops (enqueue_operation op s) (enqueue_operation-Sane op s sane)

  pub collect_wakes-Sane : (s : Scheduler H Fut) → Sane s → Sane (collect_wakes s)
  unfolding collect_wakes
  collect_wakes-Sane s sane =
      enqueue_all-Sane s.wakes (record s { wakes = [] })
        (record {
          queue = sane.queue;
          waits = sane.waits;
          pending_waits = sane.pending_waits;
          fresh_tasks = sane.fresh_tasks;
          fresh_operations = sane.fresh_operations;
        })
