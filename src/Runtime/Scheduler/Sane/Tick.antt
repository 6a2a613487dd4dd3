-- ===== src/Runtime/Scheduler/Sane/Tick.antt =====
-- src/runtime/scheduler.rs: a tick keeps the tables right and reports no error.
use vim_script.Prelude.{
  ℕ, ◌<◌, ◌≡◌, refl, Bool, Option, none, some, List, [], ◌∷◌, arith, Option-cases, Bool-cases, inl,
  inr, get, remove, get-put, get-remove, is_some, without, count,
}
use vim_script.Runtime.Error.{Result, ok, err, panic}
use vim_script.Runtime.Value.{Value}
use vim_script.Runtime.Vm.State.{VmRunOutcome}
use vim_script.Runtime.Vm.Run.{run_quantum}
use vim_script.Runtime.Scheduler.State.{
  TaskState, ScriptTask, Engine, Scheduler, Poll, pending, done, set_task,
}
use vim_script.Runtime.Scheduler.Tick.{
  Outcome, resume_task, fail_task, await_operation, after_run, run_ready, run_task, progressed,
  deliver, after_poll, poll_queued, poll_one_operation, run_next, after_polling, tick,
}
use vim_script.Runtime.Scheduler.Sane.{
  queued, queued_task, waits_for, Sane, settle-Sane, requeue-Sane, wait_for-Sane,
  collect_wakes-Sane,
}
use vim_script.Runtime.Scheduler.Sane.Resume.{
  no_error, Fine, Held, resume_by-Fine, start_call-Fine, run_command-Fine,
}

queued-ready : (st : TaskState) → 0 < queued st → st ≡ TaskState.ready
unfolding queued
queued-ready TaskState.ready n = refl
queued-ready TaskState.running n = ground arith
queued-ready (TaskState.waiting op) n = ground arith
queued-ready (TaskState.completed v) n = ground arith
queued-ready (TaskState.failed x) n = ground arith
queued-ready TaskState.cancelled n = ground arith

queued_task-ready :
    (o : Option ScriptTask)
    → 0 < queued_task o
    → (t : ScriptTask) × (o ≡ some t) × (t.state ≡ TaskState.ready)
unfolding queued_task
queued_task-ready none n = ground arith
queued_task-ready (some t) n = (t, refl, queued-ready t.state n)

module _ {H Fut : Type 0} where
  forget_result-Held :
      (id op : ℕ) (s : Scheduler H Fut)
      → Held id s
      → Held id (record s { completed_operations = remove op s.completed_operations })
  forget_result-Held id op s h = record {
    sane = record {
      queue = h.sane.queue;
      waits = h.sane.waits;
      pending_waits = h.sane.pending_waits;
      fresh_tasks = h.sane.fresh_tasks;
      fresh_operations = h.sane.fresh_operations;
    };
    un = record { unqueued = h.un.unqueued; unawaited = h.un.unawaited; known = h.un.known };
    found = h.found;
  }

  settled-Fine :
      (id : ℕ) (t : ScriptTask) (s : Scheduler H Fut)
      → queued t.state ≡ 0
      → Held id s
      → Fine {A = Unit {0}} (ok tt, set_task id t s)
  unfolding no_error
  settled-Fine id t s q h = record { sane = settle-Sane id t s q h.sane h.un; clean = refl }

  await_operation-Fine :
      (id : ℕ) (t : ScriptTask) (op : ℕ) (s : Scheduler H Fut)
      → Held id s
      → Fine (await_operation id t op s)
  unfolding await_operation resume_task fail_task queued no_error
  await_operation-Fine id t op s h = elim (Option-cases (get op s.completed_operations)) [
    | inr (result, found) ↦
        rw (found, await_operation) (resume_by-Fine _ _ id _ (forget_result-Held id op s h))
    | inl missing ↦
        rw (missing, await_operation)
          (elim (Bool-cases (is_some (get op s.operations))) [
            | inl there ↦
                rw there (record { sane = wait_for-Sane id op t s there h.sane h.un; clean = refl })
            | inr unknown ↦ rw unknown (settled-Fine id _ s refl h)
          ])
  ]

  after_run-Fine :
      (e : Engine H Fut) (id : ℕ) (t : ScriptTask) (r : Result VmRunOutcome) (s : Scheduler H Fut)
      → Held id s
      → Fine (after_run e id t r s)
  unfolding after_run no_error queued
  after_run-Fine e id t (ok VmRunOutcome.yielded) s h = record {
    sane = requeue-Sane id _ s refl h.sane h.un;
    clean = refl;
  }
  after_run-Fine e id t (ok (VmRunOutcome.completed v)) s h = settled-Fine id _ s refl h
  after_run-Fine e id t (ok (VmRunOutcome.host_call request)) s h = start_call-Fine id _ s h
  after_run-Fine e id t (ok (VmRunOutcome.option_call request)) s h = start_call-Fine id _ s h
  after_run-Fine e id t (ok (VmRunOutcome.command_call request)) s h =
      run_command-Fine e id t request s h
  after_run-Fine e id t (ok (VmRunOutcome.waiting op)) s h = await_operation-Fine id t op s h
  after_run-Fine e id t (err x) s h = settled-Fine id _ s refl h
  after_run-Fine e id t panic s h = record { sane = h.sane; clean = refl }

  -- Taking a ready task from the queue, and marking it as running, leaves it with its quantum only.
  running-Held :
      (id : ℕ) (rest : List ℕ) (t t' : ScriptTask) (s : Scheduler H Fut)
      → s.ready_queue ≡ id ∷ rest
      → get id s.tasks ≡ some t
      → t.state ≡ TaskState.ready
      → t'.state ≡ TaskState.running
      → Sane s
      → Held id (set_task id t' (record s { ready_queue = rest }))
  unfolding set_task count queued_task queued waits_for
  running-Held id rest t t' s q found ready runs sane = record {
    sane = record {
      queue = λ j. ground (arith, get-put id j t' s.tasks, sane.queue j);
      waits = λ op j g. ground (arith, get-put id j t' s.tasks, sane.waits op j g);
      pending_waits = λ op j g. sane.pending_waits op j g;
      fresh_tasks = λ j n. ground (arith, get-put id j t' s.tasks, sane.fresh_tasks j n);
      fresh_operations = sane.fresh_operations;
    };
    un = record {
      unqueued = ground (arith, sane.queue id);
      unawaited = λ op g. ground (arith, sane.waits op id g);
      known = ground (arith, sane.fresh_tasks id);
    };
    found = ground (arith, get-put id id t' s.tasks);
  }

  first_queued :
      (id : ℕ) (rest : List ℕ) (s : Scheduler H Fut)
      → s.ready_queue ≡ id ∷ rest
      → Sane s
      → 0 < queued_task (get id s.tasks)
  unfolding count
  first_queued id rest s q sane = ground (arith, sane.queue id)

  progressed-Fine : (r : Outcome H Fut (Unit {0})) → Fine r → Fine (progressed r)
  unfolding progressed no_error
  progressed-Fine (ok u, s) h = record { sane = h.sane; clean = refl }
  progressed-Fine (err e, s) h = ground arith
  progressed-Fine (panic, s) h = record { sane = h.sane; clean = refl }

  run_first-Fine :
      (e : Engine H Fut) (id : ℕ) (rest : List ℕ) (s : Scheduler H Fut)
      → s.ready_queue ≡ id ∷ rest
      → Sane s
      → Fine (run_task e id (record s { ready_queue = rest }))
  unfolding run_task run_ready
  run_first-Fine e id rest s q sane =
      let (t, found, ready) = queued_task-ready (get id s.tasks) (first_queued id rest s q sane) in
      let quantum = run_quantum e.platform s.instruction_quantum t.vm in
      let t' : ScriptTask = record t { vm = quantum.1; state = TaskState.running } in
      rw (found, run_task)
        (rw (ready, run_ready)
          (after_run-Fine e id t' quantum.0 _
            (running-Held id rest t t' s q found ready refl sane)))

  run_next-Fine :
      (e : Engine H Fut) (polled : Bool) (queue : List ℕ) (s : Scheduler H Fut)
      → s.ready_queue ≡ queue
      → Sane s
      → Fine (run_next e polled queue s)
  unfolding run_next no_error
  run_next-Fine e polled [] s q sane = record { sane = sane; clean = refl }
  run_next-Fine e polled (id ∷ rest) s q sane =
      progressed-Fine _ (run_first-Fine e id rest s q sane)

  -- The task that waits for the operation, once the operation has left the tables.
  awaiting-Held :
      (op id : ℕ) (s : Scheduler H Fut)
      → get op s.waiting ≡ some id
      → Sane s
      → Held id (record s { operations = remove op s.operations; waiting = remove op s.waiting })
  unfolding waits_for queued_task queued
  awaiting-Held op id s g sane = record {
    sane = record {
      queue = sane.queue;
      waits = λ w j h. ground (arith, get-remove op w s.waiting, sane.waits w j);
      pending_waits = λ w j h.
          ground (
            arith,
            get-remove op w s.waiting,
            get-remove op w s.operations,
            sane.pending_waits w j,
          );
      fresh_tasks = sane.fresh_tasks;
      fresh_operations =
          λ w n. ground (arith, get-remove op w s.operations, sane.fresh_operations w n);
    };
    un = record {
      unqueued = ground (arith, sane.queue id, sane.waits op id g);
      unawaited =
          λ w h. ground (arith, get-remove op w s.waiting, sane.waits op id g, sane.waits w id);
      known = ground (arith, sane.fresh_tasks id, sane.waits op id g);
    };
    found = ground (arith, sane.waits op id g);
  }

  deliver-Fine :
      (op : ℕ) (result : Result Value) (s : Scheduler H Fut)
      → Sane s
      → Fine (deliver op result (record s { operations = remove op s.operations }))
  unfolding deliver resume_task no_error
  deliver-Fine op result s sane = elim (Option-cases (get op s.waiting)) [
    | inr (id, g) ↦
        rw (g, deliver) (progressed-Fine _ (resume_by-Fine _ _ id _ (awaiting-Held op id s g sane)))
    | inl free ↦
        rw (free, deliver)
          (record {
            sane = record {
              queue = sane.queue;
              waits = sane.waits;
              pending_waits =
                  λ w j h. ground (arith, get-remove op w s.operations, sane.pending_waits w j h);
              fresh_tasks = sane.fresh_tasks;
              fresh_operations =
                  λ w n. ground (arith, get-remove op w s.operations, sane.fresh_operations w n);
            };
            clean = refl;
          })
  ]

  after_poll-Fine :
      (op : ℕ) (future : Fut) (p : Poll Fut) (s : Scheduler H Fut)
      → get op s.operations ≡ some future
      → Sane s
      → Fine (after_poll op p s)
  unfolding after_poll no_error
  after_poll-Fine op future (pending later) s g sane = record {
    sane = record {
      queue = sane.queue;
      waits = sane.waits;
      pending_waits =
          λ w j h. ground (arith, get-put op w later s.operations, sane.pending_waits w j h);
      fresh_tasks = sane.fresh_tasks;
      fresh_operations =
          λ w n. ground (arith, get-put op w later s.operations, sane.fresh_operations w n);
    };
    clean = refl;
  }
  after_poll-Fine op future (done result) s g sane = deliver-Fine op result s sane

  pub requeued-Sane :
      (queue asked : List ℕ) (s : Scheduler H Fut)
      → Sane s
      → Sane (record s { operation_queue = queue; queued_operations = asked })
  requeued-Sane queue asked s sane = record {
    queue = sane.queue;
    waits = sane.waits;
    pending_waits = sane.pending_waits;
    fresh_tasks = sane.fresh_tasks;
    fresh_operations = sane.fresh_operations;
  }

  poll_queued-Fine :
      (e : Engine H Fut) (queue : List ℕ) (s : Scheduler H Fut)
      → Sane s
      → Fine (poll_queued e queue s)
  unfolding poll_queued no_error
  poll_queued-Fine e [] s sane = record { sane = sane; clean = refl }
  poll_queued-Fine e (op ∷ rest) s sane =
      let polled = requeued-Sane rest (without op s.queued_operations) s sane in
      elim (Option-cases (get op s.operations)) [
        | inl gone ↦ rw (gone, poll_queued) (record { sane = polled; clean = refl })
        | inr (future, g) ↦
            rw (g, poll_queued) (after_poll-Fine op future (e.poll future) _ g polled)
      ]

  after_polling-Fine :
      (e : Engine H Fut) (r : Outcome H Fut Bool) → Fine r → Fine (after_polling e r)
  unfolding after_polling
  after_polling-Fine e (ok polled, s) h = run_next-Fine e polled s.ready_queue s refl h.sane
  after_polling-Fine e (err x, s) h = h
  after_polling-Fine e (panic, s) h = record { sane = h.sane; clean = h.clean }

  pub poll_one_operation-Fine :
      (e : Engine H Fut) (s : Scheduler H Fut) → Sane s → Fine (poll_one_operation e s)
  unfolding poll_one_operation
  poll_one_operation-Fine e s sane = poll_queued-Fine e s.operation_queue s sane

  -- A tick of a scheduler whose tables are right leaves them right, whatever the operation
  -- that it polls and the task that it runs do, and it reports no error: an error of
  -- a task is kept in that task.
  pub tick-Fine : (e : Engine H Fut) (s : Scheduler H Fut) → Sane s → Fine (tick e s)
  unfolding tick
  tick-Fine e s sane =
      after_polling-Fine e _ (poll_one_operation-Fine e _ (collect_wakes-Sane s sane))
