-- ===== src/Runtime/Scheduler/Reachable.antt =====
-- src/runtime/scheduler.rs: the schedulers that an embedding program can come to.
use vim_script.Prelude.{
  ℕ, suc, ◌≡◌, refl, ◌∙◌, ap, subst, sym, Bool, Option, none, some, List, [], ◌∷◌, ◌++◌, arith, get,
  is_some,
}
use vim_script.Runtime.Vm.State.{Vm}
use vim_script.Runtime.Scheduler.State.{
  ScriptTask, Engine, Scheduler, empty, spawn_child, register_boxed, enqueue_operation, install_all,
  set_host,
}
use vim_script.Runtime.Scheduler.Tick.{tick}
use vim_script.Runtime.Scheduler.Drive.{cancel}
use vim_script.Runtime.Scheduler.Sane.{queued_task, waits_for, Sane, enqueue_operation-Sane}
use vim_script.Runtime.Scheduler.Sane.Resume.{register_boxed-Sane}
use vim_script.Runtime.Scheduler.Sane.Tick.{tick-Fine}
use vim_script.Runtime.Scheduler.Cancel.{Nested, children_of, Keeping-Nested}
use vim_script.Runtime.Scheduler.Cancel.Ends.{Cancels, cancel-Cancels}
use vim_script.Runtime.Scheduler.Spawn.{spawn_child-Spawned, empty-Sane, empty-Nested}
use vim_script.Runtime.Scheduler.Families.{Same, enqueue_operation-Same, register_boxed-Same}
use vim_script.Runtime.Scheduler.Families.Tick.{tick-Nested}

-- What the methods of the scheduler and the wakes of its futures lead to. A cancellation has the
-- number of the task ids as its fuel.
pub data Reachable {H Fut : Type 0} (e : Engine H Fut) : Scheduler H Fut → Type 0 where
  start : (quantum : ℕ) → Reachable e (empty (suc quantum))
  spawned :
      {s : Scheduler H Fut} (vm : Vm) (parent : Option ℕ)
      → Reachable e s
      → Reachable e (spawn_child e vm parent s).1
  registered :
      {s : Scheduler H Fut} (future : Fut) → Reachable e s → Reachable e (register_boxed future s).1
  hosted : {s : Scheduler H Fut} (h : H) → Reachable e s → Reachable e (set_host e h s)
  woken :
      {s : Scheduler H Fut} (op : ℕ)
      → Reachable e s
      → Reachable e (record s { wakes = s.wakes ++ op ∷ [] })
  received : {s : Scheduler H Fut} (op : ℕ) → Reachable e s → Reachable e (enqueue_operation op s)
  ticked : {s : Scheduler H Fut} → Reachable e s → Reachable e (tick e s).1
  cancelled :
      {s s' : Scheduler H Fut} (id : ℕ) (found : Bool)
      → Reachable e s
      → cancel (suc s.next_task_id) id s ≡ some (found, s')
      → Reachable e s'

module _ {H Fut : Type 0} (e : Engine H Fut) where
  install_all-task :
      (h : H) (ts : List (ℕ × ScriptTask)) (id : ℕ)
      → (queued_task (get id (install_all e h ts)) ≡ queued_task (get id ts))
        × (is_some (get id (install_all e h ts)) ≡ is_some (get id ts))
        × (children_of (get id (install_all e h ts)) ≡ children_of (get id ts))
        × ((op : ℕ) → waits_for op (get id (install_all e h ts)) ≡ waits_for op (get id ts))
  unfolding install_all get queued_task children_of waits_for
  install_all-task h [] id = (refl, refl, refl, λ op. refl)
  install_all-task h ((j, t) ∷ rest) id =
      let (q, i, c, w) = install_all-task h rest id in
      (ground (arith, q), ground (arith, i), ground (arith, c), λ op. ground (arith, w op))

  set_host-Sane : (h : H) (s : Scheduler H Fut) → Sane s → Sane (set_host e h s)
  unfolding set_host queued_task
  set_host-Sane h s sane = record {
    queue = λ id. let (q, i, c, w) = install_all-task h s.tasks id in sane.queue id ∙ sym q;
    waits =
        λ op id g. let (q, i, c, w) = install_all-task h s.tasks id in w op ∙ sane.waits op id g;
    pending_waits = sane.pending_waits;
    fresh_tasks = λ id n.
        let (q, i, c, w) = install_all-task h s.tasks id in
        ground (arith, i, sane.fresh_tasks id n);
    fresh_operations = sane.fresh_operations;
  }

  set_host-Nested : (h : H) (s : Scheduler H Fut) → Nested s → Nested (set_host e h s)
  unfolding set_host
  set_host-Nested h s n = record {
    above = λ id c m. let (q, i, k, w) = install_all-task h s.tasks id in n.above id c (rw (← k) m);
    known = λ id c m.
        let (q, i, k, w) = install_all-task h s.tasks id in
        let (q', i', k', w') = install_all-task h s.tasks c in i' ∙ n.known id c (rw (← k) m);
  }

  abbrev after_of : Scheduler H Fut → Option (Bool × Scheduler H Fut) → Scheduler H Fut
  after_of s none = s
  after_of s (some (found, s')) = s'

  cancel-after :
      (s s' : Scheduler H Fut) (id : ℕ) (found : Bool)
      → Sane s
      → Nested s
      → cancel (suc s.next_task_id) id s ≡ some (found, s')
      → Sane s' × Nested s'
  cancel-after s s' id found sane nested q =
      let c = cancel-Cancels (suc s.next_task_id) id s sane nested (omega arith) (omega arith) in
      let same : c.after ≡ s' = ap (after_of s) (sym c.result ∙ q) in
      (subst Sane same c.keeping.sane, subst Nested same (Keeping-Nested c.keeping nested))

  woken-Sane :
      (op : ℕ) (s : Scheduler H Fut) → Sane s → Sane (record s { wakes = s.wakes ++ op ∷ [] })
  woken-Sane op s sane = record {
    queue = sane.queue;
    waits = sane.waits;
    pending_waits = sane.pending_waits;
    fresh_tasks = sane.fresh_tasks;
    fresh_operations = sane.fresh_operations;
  }

  Same-Nested : {s s' : Scheduler H Fut} → Same s s' → Nested s → Nested s'
  Same-Nested k n = record {
    above = λ id c m. n.above id c (rw (← k.families id) m);
    known = λ id c m. k.same_tasks c ∙ n.known id c (rw (← k.families id) m);
  }

  -- In every scheduler that its methods and the wakes of futures lead to, the tables are
  -- right and each child has a greater id than its parent.
  pub Reachable-Sane : {s : Scheduler H Fut} → Reachable e s → Sane s × Nested s
  Reachable-Sane (start quantum) = (empty-Sane (suc quantum), empty-Nested (suc quantum))
  Reachable-Sane (spawned {s} vm parent before) =
      let (sane, nested) = Reachable-Sane before in
      let x = spawn_child-Spawned e vm parent s sane nested in (x.sane, x.nested)
  Reachable-Sane (registered {s} future before) =
      let (sane, nested) = Reachable-Sane before in
      (register_boxed-Sane future s sane, Same-Nested (register_boxed-Same future s) nested)
  Reachable-Sane (hosted {s} h before) =
      let (sane, nested) = Reachable-Sane before in
      (set_host-Sane h s sane, set_host-Nested h s nested)
  Reachable-Sane (woken {s} op before) =
      let (sane, nested) = Reachable-Sane before in
      (woken-Sane op s sane, record { above = nested.above; known = nested.known })
  Reachable-Sane (received {s} op before) =
      let (sane, nested) = Reachable-Sane before in
      (enqueue_operation-Sane op s sane, Same-Nested (enqueue_operation-Same op s) nested)
  Reachable-Sane (ticked {s} before) =
      let (sane, nested) = Reachable-Sane before in
      ((tick-Fine e s sane).sane, tick-Nested e s nested)
  Reachable-Sane (cancelled {s} {s'} id found before q) =
      let (sane, nested) = Reachable-Sane before in cancel-after s s' id found sane nested q

  -- Cancelling any task of a reachable scheduler ends within the number of its task ids,
  -- and leaves the task and every task that descends from it cancelled.
  pub Reachable-Cancels :
      {s : Scheduler H Fut} → Reachable e s → (id : ℕ) → Cancels (suc s.next_task_id) id s
  Reachable-Cancels {s} r id =
      let (sane, nested) = Reachable-Sane r in
      cancel-Cancels (suc s.next_task_id) id s sane nested (omega arith) (omega arith)
