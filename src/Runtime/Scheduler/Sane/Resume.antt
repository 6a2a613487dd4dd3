-- ===== src/Runtime/Scheduler/Sane/Resume.antt =====
-- src/runtime/scheduler.rs: resuming a task, starting a host call or a command, keeps the tables
-- right and reports no error.
use vim_script.Prelude.{
  suc, put, ℕ, ◌≡◌, refl, Bool, true, false, Option, none, some, arith, Option-cases, inl, inr,
  Text, get, get-put, is_some,
}
use vim_script.Host.{CommandRequest}
use vim_script.Runtime.Error.{Result, ok, err, panic}
use vim_script.Runtime.Value.{Value}
use vim_script.Runtime.Vm.State.{Vm}
use vim_script.Runtime.Scheduler.State.{
  TaskState, ScriptTask, Engine, Scheduler, register_boxed, enqueue_operation,
}
use vim_script.Runtime.Scheduler.Tick.{
  Outcome, after_resume, resume_by, resume_call, finish_command, start_call, start_command, as_null,
  change_host, after_registration, try_registration, run_command, no_host,
}
use vim_script.Runtime.Scheduler.Sane.{
  queued, Sane, Unattended, settle-Sane, requeue-Sane, wait_for-Sane, enqueue_operation-Sane,
}

-- That a result is no error. A panic is the machine's.
unfoldable pub no_error : {A : Type 0} → Result A → Bool
no_error (err e) = false
no_error _ = true

-- The tables are right afterwards, and no error is reported.
pub record Fine {H Fut A : Type 0} (r : Outcome H Fut A) : Type 0 where
  pub sane : Sane r.1
  pub clean : no_error r.0 ≡ true

-- A task that is worked on: it exists, and nothing else refers to it.
pub record Held {H Fut : Type 0} (id : ℕ) (s : Scheduler H Fut) : Type 0 where
  pub sane : Sane s
  pub un : Unattended id s
  pub found : is_some (get id s.tasks) ≡ true

module _ {H Fut : Type 0} where
  pub after_resume-Fine :
      (id : ℕ) (t : ScriptTask) (r : Result (Unit {0})) (vm : Vm) (s : Scheduler H Fut)
      → Held id s
      → Fine (after_resume id t r vm s)
  unfolding after_resume no_error queued
  after_resume-Fine id t (ok u) vm s h = record {
    sane = requeue-Sane id (record t { vm = vm; state = TaskState.ready }) s refl h.sane h.un;
    clean = refl;
  }
  after_resume-Fine id t (err e) vm s h = record {
    sane = settle-Sane id (record t { vm = vm; state = TaskState.failed e }) s refl h.sane h.un;
    clean = refl;
  }
  after_resume-Fine id t panic vm s h = record { sane = h.sane; clean = refl }

  pub resume_by-Fine :
      (message : Text) (method : Vm → Result (Unit {0}) × Vm) (id : ℕ) (s : Scheduler H Fut)
      → Held id s
      → Fine (resume_by message method id s)
  unfolding resume_by
  resume_by-Fine message method id s h = elim (Option-cases (get id s.tasks)) [
    | inl missing ↦ cc
    | inr (t, found) ↦
        rw (found, resume_by) (after_resume-Fine id t (method t.vm).0 (method t.vm).1 s h)
  ]

  enqueue_operation-Unattended :
      (id op : ℕ) (s : Scheduler H Fut) → Unattended id s → Unattended id (enqueue_operation op s)
  unfolding enqueue_operation
  enqueue_operation-Unattended id op s u = ground arith

  enqueue_operation-found :
      (id op : ℕ) (s : Scheduler H Fut)
      → is_some (get id s.tasks) ≡ true
      → is_some (get id (enqueue_operation op s).tasks) ≡ true
  unfolding enqueue_operation
  enqueue_operation-found id op s f = ground arith

  pub enqueue_operation-Held :
      (id op : ℕ) (s : Scheduler H Fut) → Held id s → Held id (enqueue_operation op s)
  enqueue_operation-Held id op s h = record {
    sane = enqueue_operation-Sane op s h.sane;
    un = enqueue_operation-Unattended id op s h.un;
    found = enqueue_operation-found id op s h.found;
  }

  -- The operation's future is stored; no table of tasks changes.
  stored-Sane :
      (future : Fut) (s : Scheduler H Fut)
      → Sane s
      → Sane (record s {
        next_operation_id = suc s.next_operation_id;
        operations = put s.next_operation_id future s.operations;
      })
  stored-Sane future s sane = record {
    queue = sane.queue;
    waits = sane.waits;
    pending_waits = λ op j g.
        ground
          (arith, get-put s.next_operation_id op future s.operations, sane.pending_waits op j g);
    fresh_tasks = sane.fresh_tasks;
    fresh_operations = λ op n.
        ground
          (arith, get-put s.next_operation_id op future s.operations, sane.fresh_operations op);
  }

  pub register_boxed-Sane :
      (future : Fut) (s : Scheduler H Fut) → Sane s → Sane (register_boxed future s).1
  unfolding register_boxed
  register_boxed-Sane future s sane = enqueue_operation-Sane _ _ (stored-Sane future s sane)

  pub register_boxed-Held :
      (id : ℕ) (future : Fut) (s : Scheduler H Fut)
      → Held id s
      → Held id (register_boxed future s).1
  unfolding register_boxed
  register_boxed-Held id future s h = enqueue_operation-Held id s.next_operation_id _ (record {
    sane = stored-Sane future s h.sane;
    un = record { unqueued = h.un.unqueued; unawaited = h.un.unawaited; known = h.un.known };
    found = h.found;
  })

  pub register_boxed-pending :
      (future : Fut) (s : Scheduler H Fut)
      → is_some (get (register_boxed future s).0 (register_boxed future s).1.operations) ≡ true
  unfolding register_boxed enqueue_operation
  register_boxed-pending future s =
      ground (arith, get-put s.next_operation_id s.next_operation_id future s.operations)

  pub start_call-Fine :
      (id : ℕ) (r : Result Fut) (s : Scheduler H Fut) → Held id s → Fine (start_call id r s)
  unfolding start_call resume_call no_error
  start_call-Fine id (ok future) s h = resume_by-Fine _ _ id _ (register_boxed-Held id future s h)
  start_call-Fine id (err e) s h = resume_by-Fine _ _ id s h
  start_call-Fine id panic s h = record { sane = h.sane; clean = refl }

  finish_command-Fine :
      (id : ℕ) (r : Result Value) (s : Scheduler H Fut) → Held id s → Fine (finish_command id r s)
  unfolding finish_command
  finish_command-Fine id r s h = resume_by-Fine _ _ id s h

  start_command-Fine :
      (id : ℕ) (t : ScriptTask) (r : Result Fut) (s : Scheduler H Fut)
      → Held id s
      → Fine (start_command id t r s)
  unfolding start_command no_error
  start_command-Fine id t (ok future) s h =
      let h' = register_boxed-Held id future s h in
      record {
        sane = wait_for-Sane id _ _ _ (register_boxed-pending future s) h'.sane h'.un;
        clean = refl;
      }
  start_command-Fine id t (err e) s h = finish_command-Fine id (err e) s h
  start_command-Fine id t panic s h = record { sane = h.sane; clean = refl }

  -- The host is no part of the tables.
  with_host-Held :
      (id : ℕ) (host : Option H) (s : Scheduler H Fut)
      → Held id s
      → Held id (record s { host = host })
  with_host-Held id host s h = record {
    sane = record {
      queue = h.sane.queue;
      waits = h.sane.waits;
      pending_waits = h.sane.pending_waits;
      fresh_tasks = h.sane.fresh_tasks;
      fresh_operations = h.sane.fresh_operations;
    };
    un = record { unqueued = h.un.unqueued; unawaited = h.un.unawaited; known = h.un.known };
    found = h.found;
  }

  change_host-Fine :
      (f : H → Result (Unit {0}) × H) (id : ℕ) (host : Option H) (s : Scheduler H Fut)
      → Held id s
      → Fine (change_host f id host s)
  unfolding change_host
  change_host-Fine f id none s h = finish_command-Fine id (err no_host) s h
  change_host-Fine f id (some host) s h = finish_command-Fine id _ _ (with_host-Held id _ s h)

  try_registration-Fine :
      (e : Engine H Fut) (id : ℕ) (t : ScriptTask) (request : CommandRequest)
      (r : Option (Result (Unit {0}))) (host : Option H) (s : Scheduler H Fut)
      → Held id s
      → Fine (after_registration e id t request r host s)
  unfolding after_registration
  try_registration-Fine e id t request (some r) host s h = finish_command-Fine id (as_null r) s h
  try_registration-Fine e id t request none host s h = start_command-Fine id t _ s h

  registration-Fine :
      (e : Engine H Fut) (id : ℕ) (t : ScriptTask) (request : CommandRequest) (host : Option H)
      (s : Scheduler H Fut)
      → Held id s
      → Fine (try_registration e id t request host s)
  unfolding try_registration
  registration-Fine e id t request none s h = try_registration-Fine e id t request none none s h
  registration-Fine e id t request (some host) s h =
      try_registration-Fine e id t request _ _ _ (with_host-Held id _ s h)

  pub run_command-Fine :
      (e : Engine H Fut) (id : ℕ) (t : ScriptTask) (request : CommandRequest) (s : Scheduler H Fut)
      → Held id s
      → Fine (run_command e id t request s)
  unfolding run_command
  run_command-Fine e id t request s h = ground (
    arith,
    change_host-Fine (λ h. e.define_user_command h request.command) id s.host s h,
    change_host-Fine (λ h. e.delete_user_command h request.command) id s.host s h,
    registration-Fine e id t request s.host s h,
  )
