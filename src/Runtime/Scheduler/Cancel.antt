-- ===== src/Runtime/Scheduler/Cancel.antt =====
-- src/runtime/scheduler.rs: what `cancel` does to one task, and what it keeps.
pub mod Ends
use vim_script.Prelude.{
  ℕ, zero, suc, ◌+◌, ◌<◌, ◌≤◌, ◌≡◌, ◌≢◌, ◌⊎◌, refl, ◌∙◌, ap, Bool, true, false, Option, none, some,
  List, [], ◌∷◌, ◌++◌, text, arith, Option-cases, Bool-cases, inl, inr, Text, get, put, remove,
  get-put, get-remove, is_some, member, without, count, ◌==◌, if◌then◌else◌, leb, text_eq,
  count-without, subst,
}
use vim_script.Runtime.Error.{RuntimeError, Result, ok, err, panic}
use vim_script.Runtime.Value.{Value}
use vim_script.Runtime.Vm.State.{Vm, VmStatus}
use vim_script.Runtime.Scheduler.State.{TaskState, ScriptTask, Engine, Scheduler, set_task}
use vim_script.Runtime.Scheduler.Drive.{
  cancelled_error, forget_operation, forget_awaited, mark_cancelled, cancel_one, cancel_each,
  cancel,
}
use vim_script.Runtime.Scheduler.Sane.{queued, queued_task, waits_for, Sane}

unfoldable pub is_cancelled : Option ScriptTask → Bool
is_cancelled none = false
is_cancelled (some t) = elim t.state [ TaskState.cancelled ↦ true | _ ↦ false ]

unfoldable pub children_of : Option ScriptTask → List ℕ
children_of none = []
children_of (some t) = t.children

-- A child's id is above its parent's, and is that of a task.
pub record Nested {H Fut : Type 0} (s : Scheduler H Fut) : Type 0 where
  pub above : (id c : ℕ) → member c (children_of (get id s.tasks)) ≡ true → id < c
  pub known :
      (id c : ℕ) → member c (children_of (get id s.tasks)) ≡ true → is_some (get c s.tasks) ≡ true

-- What a call of `cancel` keeps: the tasks and their families, and what was cancelled before.
pub record Keeping {H Fut : Type 0} (s s' : Scheduler H Fut) : Type 0 where
  pub sane : Sane s'
  pub next : s'.next_task_id ≡ s.next_task_id
  pub families : (j : ℕ) → children_of (get j s'.tasks) ≡ children_of (get j s.tasks)
  pub same_tasks : (j : ℕ) → is_some (get j s'.tasks) ≡ is_some (get j s.tasks)
  pub grows : (j : ℕ) → is_cancelled (get j s.tasks) ≡ true → is_cancelled (get j s'.tasks) ≡ true

module _ {H Fut : Type 0} where
  pub Keeping-trans : {s s' s'' : Scheduler H Fut} → Keeping s s' → Keeping s' s'' → Keeping s s''
  Keeping-trans a b = record {
    sane = b.sane;
    next = b.next ∙ a.next;
    families = λ j. b.families j ∙ a.families j;
    same_tasks = λ j. b.same_tasks j ∙ a.same_tasks j;
    grows = λ j g. b.grows j (a.grows j g);
  }

  pub Keeping-Nested : {s s' : Scheduler H Fut} → Keeping s s' → Nested s → Nested s'
  Keeping-Nested {s} {s'} k n = record {
    above = λ id c m. n.above id c (rw (← k.families id) m);
    known = λ id c m. rw (k.same_tasks c) (n.known id c (rw (← k.families id) m));
  }

  forget_operation-Sane : (op : ℕ) (s : Scheduler H Fut) → Sane s → Sane (forget_operation op s)
  unfolding forget_operation
  forget_operation-Sane op s sane = record {
    queue = sane.queue;
    waits = λ w j g. ground (arith, get-remove op w s.waiting, sane.waits w j);
    pending_waits = λ w j g.
        ground
          (arith, get-remove op w s.waiting, get-remove op w s.operations, sane.pending_waits w j);
    fresh_tasks = sane.fresh_tasks;
    fresh_operations =
        λ w n. ground (arith, get-remove op w s.operations, sane.fresh_operations w n);
  }

  forget_awaited-Sane : (st : TaskState) (s : Scheduler H Fut) → Sane s → Sane (forget_awaited st s)
  unfolding forget_awaited
  forget_awaited-Sane TaskState.ready s sane = sane
  forget_awaited-Sane TaskState.running s sane = sane
  forget_awaited-Sane (TaskState.waiting op) s sane = forget_operation-Sane op s sane
  forget_awaited-Sane (TaskState.completed v) s sane = sane
  forget_awaited-Sane (TaskState.failed x) s sane = sane
  forget_awaited-Sane TaskState.cancelled s sane = sane

  forget_awaited-tasks :
      (st : TaskState) (s : Scheduler H Fut) → (forget_awaited st s).tasks ≡ s.tasks
  unfolding forget_awaited forget_operation
  forget_awaited-tasks TaskState.ready s = refl
  forget_awaited-tasks TaskState.running s = refl
  forget_awaited-tasks (TaskState.waiting op) s = refl
  forget_awaited-tasks (TaskState.completed v) s = refl
  forget_awaited-tasks (TaskState.failed x) s = refl
  forget_awaited-tasks TaskState.cancelled s = refl

  forget_awaited-next :
      (st : TaskState) (s : Scheduler H Fut) → (forget_awaited st s).next_task_id ≡ s.next_task_id
  unfolding forget_awaited forget_operation
  forget_awaited-next TaskState.ready s = refl
  forget_awaited-next TaskState.running s = refl
  forget_awaited-next (TaskState.waiting op) s = refl
  forget_awaited-next (TaskState.completed v) s = refl
  forget_awaited-next (TaskState.failed x) s = refl
  forget_awaited-next TaskState.cancelled s = refl

  -- No operation's result will be given to the task any more.
  forget_awaited-unawaited :
      (id : ℕ) (t : ScriptTask) (st : TaskState) (s : Scheduler H Fut)
      → get id s.tasks ≡ some t
      → t.state ≡ st
      → Sane s
      → (w : ℕ) → get w (forget_awaited st s).waiting ≢ some id
  unfolding forget_awaited forget_operation waits_for
  forget_awaited-unawaited id t TaskState.ready s found e sane w g =
      ground (arith, sane.waits w id g)
  forget_awaited-unawaited id t TaskState.running s found e sane w g =
      ground (arith, sane.waits w id g)
  forget_awaited-unawaited id t (TaskState.waiting op) s found e sane w g =
      ground (arith, get-remove op w s.waiting, sane.waits w id)
  forget_awaited-unawaited id t (TaskState.completed v) s found e sane w g =
      ground (arith, sane.waits w id g)
  forget_awaited-unawaited id t (TaskState.failed x) s found e sane w g =
      ground (arith, sane.waits w id g)
  forget_awaited-unawaited id t TaskState.cancelled s found e sane w g =
      ground (arith, sane.waits w id g)

  mark_cancelled-Sane :
      (id : ℕ) (t t' : ScriptTask) (s : Scheduler H Fut)
      → get id s.tasks ≡ some t
      → t'.state ≡ TaskState.cancelled
      → ((w : ℕ) → get w s.waiting ≢ some id)
      → Sane s
      → Sane (set_task id t' (record s { ready_queue = without id s.ready_queue }))
  unfolding set_task queued_task queued
  mark_cancelled-Sane id t t' s found c free sane = record {
    queue = λ j.
        ground (arith, get-put id j t' s.tasks, count-without j id s.ready_queue, sane.queue j);
    waits = λ w j g. ground (arith, get-put id j t' s.tasks, sane.waits w j g, free w);
    pending_waits = sane.pending_waits;
    fresh_tasks = λ j n. ground (arith, get-put id j t' s.tasks, sane.fresh_tasks j n);
    fresh_operations = sane.fresh_operations;
  }

  pub cancel_one-Keeping :
      (id : ℕ) (t : ScriptTask) (s : Scheduler H Fut)
      → get id s.tasks ≡ some t
      → Sane s
      → Keeping s (mark_cancelled id t (forget_awaited t.state s))
  unfolding mark_cancelled set_task children_of is_cancelled
  cancel_one-Keeping id t s found sane =
      let t' : ScriptTask = record t {
        state = TaskState.cancelled;
        vm = record t.vm { status = VmStatus.failed cancelled_error };
      } in
      let same = forget_awaited-tasks t.state s in
      record {
        sane =
            mark_cancelled-Sane id t t' (forget_awaited t.state s) (rw same found) refl
              (forget_awaited-unawaited id t t.state s found refl sane)
              (forget_awaited-Sane t.state s sane);
        next = forget_awaited-next t.state s;
        families = λ j. ground (arith, same, get-put id j t' s.tasks);
        same_tasks = λ j. ground (arith, same, get-put id j t' s.tasks);
        grows = λ j g. ground (arith, same, get-put id j t' s.tasks);
      }

  pub mark_cancelled-is_cancelled :
      (id : ℕ) (t : ScriptTask) (s : Scheduler H Fut)
      → is_cancelled (get id (mark_cancelled id t s).tasks) ≡ true
  unfolding mark_cancelled set_task is_cancelled
  mark_cancelled-is_cancelled id t s = ground (
    arith,
    get-put id id
        (record t {
          state = TaskState.cancelled;
          vm = record t.vm { status = VmStatus.failed cancelled_error };
        })
        s.tasks,
  )
