-- ===== src/Runtime/Scheduler/Spawn.antt =====
-- src/runtime/scheduler.rs: a new scheduler, and spawning and registering, keep the tables right.
use vim_script.Prelude.{
  ℕ, suc, ◌<◌, ◌≡◌, refl, ◌∙◌, sym, subst, true, Option, none, some, [], ◌∷◌, arith, Option-cases,
  Bool-cases, inl, inr, get, put, get-put, is_some, member, count, leb, length,
}
use vim_script.Runtime.Error.{RuntimeError, Result, ok, err}
use vim_script.Runtime.Vm.State.{Vm}
use vim_script.Runtime.Scheduler.State.{
  TaskState, ScriptTask, Engine, Scheduler, set_task, push_ready, empty, install, add_child,
  add_task, parent_exists, spawn_child,
}
use vim_script.Runtime.Scheduler.Sane.{
  queued, queued_task, waits_for, Sane, Unattended, requeue-Sane,
}
use vim_script.Runtime.Scheduler.Cancel.{Nested, children_of}

-- What `spawn_child` has done.
pub record Spawned {H Fut : Type 0} (s : Scheduler H Fut) (r : Result ℕ) (after : Scheduler H Fut)
    : Type 0 where
  pub sane : Sane after
  pub nested : Nested after
  pub unchanged : (x : RuntimeError) → r ≡ err x → after ≡ s
  pub entered :
      (id : ℕ)
      → r ≡ ok id
      → (get id s.tasks ≡ none)
        × (queued_task (get id after.tasks) ≡ 1)
        × (length s.tasks < s.max_tasks)

module _ {H Fut : Type 0} where
  pub empty-Sane : (quantum : ℕ) → Sane {H = H} {Fut = Fut} (empty quantum)
  unfolding empty queued_task count get
  empty-Sane quantum = record {
    queue = λ id. refl;
    waits = λ op id g. cc;
    pending_waits = λ op id g. cc;
    fresh_tasks = λ id n. refl;
    fresh_operations = λ op n. refl;
  }

  pub empty-Nested : (quantum : ℕ) → Nested {H = H} {Fut = Fut} (empty quantum)
  unfolding empty children_of member get
  empty-Nested quantum = record { above = λ id c m. cc; known = λ id c m. cc }

  -- Entering a child with its parent changes the parent's family only.
  add_child-Sane :
      (id : ℕ) (parent : Option ℕ) (s : Scheduler H Fut) → Sane s → Sane (add_child id parent s)
  unfolding add_child set_task queued_task waits_for
  add_child-Sane id none s sane = sane
  add_child-Sane id (some p) s sane = elim (Option-cases (get p s.tasks)) [
    | inl missing ↦ rw (missing, add_child) sane
    | inr (t, found) ↦
        let t' : ScriptTask = record t { children = id ∷ t.children } in
        rw (found, add_child)
          (record {
            queue = λ j. ground (arith, get-put p j t' s.tasks, sane.queue j);
            waits = λ op j g. ground (arith, get-put p j t' s.tasks, sane.waits op j g);
            pending_waits = sane.pending_waits;
            fresh_tasks = λ j n. ground (arith, get-put p j t' s.tasks, sane.fresh_tasks j n);
            fresh_operations = sane.fresh_operations;
          })
  ]

  -- The task that `add_task` enters.
  abbrev new_task : Engine H Fut → Vm → Option ℕ → Scheduler H Fut → ScriptTask
  new_task e vm parent s = record {
    id = s.next_task_id;
    vm = install e s.host vm;
    parent = parent;
    children = [];
    state = TaskState.ready;
  }

  push_ready-add_child :
      (id : ℕ) (parent : Option ℕ) (s : Scheduler H Fut)
      → push_ready id (add_child id parent s) ≡ add_child id parent (push_ready id s)
  unfolding push_ready add_child set_task
  push_ready-add_child id none s = refl
  push_ready-add_child id (some p) s = elim (Option-cases (get p s.tasks)) [
    | inl missing ↦ rw (missing, add_child) refl
    | inr (t, found) ↦ rw (found, add_child) refl
  ]

  pub next-Sane :
      (s : Scheduler H Fut) → Sane s → Sane (record s { next_task_id = suc s.next_task_id })
  next-Sane s sane = record {
    queue = sane.queue;
    waits = sane.waits;
    pending_waits = sane.pending_waits;
    fresh_tasks = λ id n. sane.fresh_tasks id (omega arith);
    fresh_operations = sane.fresh_operations;
  }

  pub fresh-Unattended :
      (s : Scheduler H Fut)
      → Sane s
      → Unattended s.next_task_id (record s { next_task_id = suc s.next_task_id })
  unfolding queued_task waits_for
  fresh-Unattended s sane = record {
    unqueued = ground (arith, sane.queue s.next_task_id, sane.fresh_tasks s.next_task_id);
    unawaited =
        λ op g. ground (arith, sane.waits op s.next_task_id g, sane.fresh_tasks s.next_task_id);
    known = omega arith;
  }

  add_task-Sane :
      (e : Engine H Fut) (vm : Vm) (parent : Option ℕ) (s : Scheduler H Fut)
      → Sane s
      → Sane (add_task e vm parent s)
  unfolding add_task queued
  add_task-Sane e vm parent s sane =
      subst Sane (sym (push_ready-add_child s.next_task_id parent _)) (
        add_child-Sane s.next_task_id parent _ (
          requeue-Sane s.next_task_id (new_task e vm parent s) _ refl (next-Sane s sane)
            (fresh-Unattended s sane)))

  add_child-Nested :
      (id p : ℕ) (s : Scheduler H Fut)
      → p < id
      → is_some (get id s.tasks) ≡ true
      → Nested s
      → Nested (add_child id (some p) s)
  unfolding add_child set_task children_of member
  add_child-Nested id p s lt there nested = elim (Option-cases (get p s.tasks)) [
    | inl missing ↦ rw (missing, add_child) nested
    | inr (t, found) ↦
        let t' : ScriptTask = record t { children = id ∷ t.children } in
        rw (found, add_child)
          (record {
            above = λ j c m. ground (arith, get-put p j t' s.tasks, nested.above j c);
            known = λ j c m.
                ground (arith, get-put p j t' s.tasks, get-put p c t' s.tasks, nested.known j c);
          })
  ]

  entered-Nested :
      (t : ScriptTask) (s s' : Scheduler H Fut)
      → t.children ≡ []
      → Sane s
      → Nested s
      → s'.tasks ≡ put s.next_task_id t s.tasks
      → s'.next_task_id ≡ suc s.next_task_id
      → Nested s'
  unfolding children_of member
  entered-Nested t s s' childless sane nested e next = record {
    above = λ j c m. ground (arith, e, get-put s.next_task_id j t s.tasks, nested.above j c);
    known = λ j c m. ground (
      arith,
      e,
      get-put s.next_task_id j t s.tasks,
      get-put s.next_task_id c t s.tasks,
      nested.known j c,
    );
  }

  add_task-Nested :
      (e : Engine H Fut) (vm : Vm) (parent : Option ℕ) (s : Scheduler H Fut)
      → Sane s
      → Nested s
      → parent_exists parent s ≡ true
      → Nested (add_task e vm parent s)
  unfolding add_task push_ready set_task add_child parent_exists
  add_task-Nested e vm none s sane nested x =
      entered-Nested (new_task e vm none s) s _ refl sane nested refl refl
  add_task-Nested e vm (some p) s sane nested x =
      let t = new_task e vm (some p) s in
      subst Nested (sym (push_ready-add_child s.next_task_id (some p) _)) (
        add_child-Nested s.next_task_id p _ (ground (arith, sane.fresh_tasks p))
          (ground (arith, get-put s.next_task_id s.next_task_id t s.tasks))
          (entered-Nested t s _ refl sane nested refl refl))

  add_child-states :
      (id j : ℕ) (parent : Option ℕ) (s : Scheduler H Fut)
      → queued_task (get j (add_child id parent s).tasks) ≡ queued_task (get j s.tasks)
  unfolding add_child set_task queued_task
  add_child-states id j none s = refl
  add_child-states id j (some p) s = elim (Option-cases (get p s.tasks)) [
    | inl missing ↦ rw (missing, add_child) refl
    | inr (t, found) ↦
        rw (found, add_child)
          (ground (arith, get-put p j (record t { children = id ∷ t.children }) s.tasks))
  ]

  add_task-ready :
      (e : Engine H Fut) (vm : Vm) (parent : Option ℕ) (s : Scheduler H Fut)
      → queued_task (get s.next_task_id (add_task e vm parent s).tasks) ≡ 1
  unfolding add_task push_ready set_task queued_task queued
  add_task-ready e vm parent s =
      add_child-states s.next_task_id s.next_task_id parent _
      ∙ ground (arith, get-put s.next_task_id s.next_task_id (new_task e vm parent s) s.tasks)

  refused : (x : RuntimeError) (s : Scheduler H Fut) → Sane s → Nested s → Spawned s (err x) s
  refused x s sane nested = record {
    sane = sane;
    nested = nested;
    unchanged = λ y q. refl;
    entered = λ id q. cc;
  }

  -- Spawning keeps right tables right, and keeps each child's id above its parent's, on each of its
  -- branches. An error changes nothing. The id of a new task was no task's, the new task is ready, and
  -- there were fewer tasks than the limit.
  pub spawn_child-Spawned :
      (e : Engine H Fut) (vm : Vm) (parent : Option ℕ) (s : Scheduler H Fut)
      → Sane s
      → Nested s
      → Spawned s (spawn_child e vm parent s).0 (spawn_child e vm parent s).1
  unfolding spawn_child
  spawn_child-Spawned e vm parent s sane nested =
      elim (Bool-cases (leb s.max_tasks (length s.tasks))) [
        | inl full ↦ rw (full, spawn_child) (refused _ s sane nested)
        | inr room ↦ elim (Bool-cases (parent_exists parent s)) [
          | inr orphan ↦ rw (room, spawn_child) (rw (orphan, spawn_child) (refused _ s sane nested))
          | inl x ↦
              rw (room, spawn_child)
                (rw (x, spawn_child)
                  (record {
                    sane = add_task-Sane e vm parent s sane;
                    nested = add_task-Nested e vm parent s sane nested x;
                    unchanged = λ y q. cc;
                    entered = λ id q.
                        let same : s.next_task_id ≡ id = cc in
                        (
                          sane.fresh_tasks id (ground (arith, same)),
                          rw (← same) (add_task-ready e vm parent s),
                          ground (arith, room),
                        );
                  }))
        ]
      ]
