-- ===== src/Runtime/Scheduler/Others.antt =====
-- src/runtime/scheduler.rs: what is done with one task leaves the other tasks as they are.
use vim_script.Prelude.{
  ℕ, ◌≡◌, refl, ◌∙◌, ap, false, Option, none, some, List, [], ◌∷◌, arith, Option-cases, Bool-cases,
  inl, inr, Text, get, get-put, is_some, ◌==◌,
}
use vim_script.Host.{CommandRequest}
use vim_script.Runtime.Error.{Result, ok, err, panic}
use vim_script.Runtime.Value.{Value}
use vim_script.Runtime.Vm.State.{Vm, VmRunOutcome}
use vim_script.Runtime.Scheduler.State.{
  TaskState, ScriptTask, Engine, Scheduler, set_task, push_ready, register_boxed, enqueue_operation,
  enqueue_all, collect_wakes,
}
use vim_script.Runtime.Scheduler.Tick.{
  Outcome, after_resume, resume_by, resume_task, resume_call, finish_command, start_call, wait_for,
  start_command, change_host, after_registration, try_registration, run_command, fail_task,
  await_operation, after_run, progressed, run_ready, run_task, progressed,
}

module _ {H Fut : Type 0} where
  pub enqueue_operation-tasks :
      (op : ℕ) (s : Scheduler H Fut) → (enqueue_operation op s).tasks ≡ s.tasks
  unfolding enqueue_operation
  enqueue_operation-tasks op s = ground arith

  pub enqueue_all-tasks : (ops : List ℕ) (s : Scheduler H Fut) → (enqueue_all ops s).tasks ≡ s.tasks
  unfolding enqueue_all
  enqueue_all-tasks [] s = refl
  enqueue_all-tasks (op ∷ ops) s =
      ground (arith, enqueue_all-tasks ops (enqueue_operation op s), enqueue_operation-tasks op s)

  pub collect_wakes-tasks : (s : Scheduler H Fut) → (collect_wakes s).tasks ≡ s.tasks
  unfolding collect_wakes
  collect_wakes-tasks s = enqueue_all-tasks _ _

  pub register_boxed-tasks :
      (future : Fut) (s : Scheduler H Fut) → (register_boxed future s).1.tasks ≡ s.tasks
  unfolding register_boxed
  register_boxed-tasks future s = enqueue_operation-tasks _ _

  pub progressed-tasks : (x : Outcome H Fut (Unit {0})) → (progressed x).1.tasks ≡ x.1.tasks
  unfolding progressed
  progressed-tasks (ok u, s) = refl
  progressed-tasks (err e, s) = refl
  progressed-tasks (panic, s) = refl

  -- The operations on the task `id` leave the task `j` as it is.
  module _ (id j : ℕ) (other : (id == j) ≡ false) where
    pub set_task-other :
        (t : ScriptTask) (s : Scheduler H Fut) → get j (set_task id t s).tasks ≡ get j s.tasks
    unfolding set_task
    set_task-other t s = ground (arith, get-put id j t s.tasks)

    after_resume-other :
        (t : ScriptTask) (r : Result (Unit {0})) (vm : Vm) (s : Scheduler H Fut)
        → get j (after_resume id t r vm s).1.tasks ≡ get j s.tasks
    unfolding push_ready after_resume
    after_resume-other t (ok u) vm s = set_task-other _ s
    after_resume-other t (err e) vm s = set_task-other _ s
    after_resume-other t panic vm s = refl

    pub resume_by-other :
        (message : Text) (method : Vm → Result (Unit {0}) × Vm) (s : Scheduler H Fut)
        → get j (resume_by message method id s).1.tasks ≡ get j s.tasks
    unfolding resume_by
    resume_by-other message method s = elim (Option-cases (get id s.tasks)) [
      | inl missing ↦ rw (missing, resume_by) refl
      | inr (t, found) ↦
          rw (found, resume_by) (after_resume-other t (method t.vm).0 (method t.vm).1 s)
    ]

    start_call-other :
        (r : Result Fut) (s : Scheduler H Fut) → get j (start_call id r s).1.tasks ≡ get j s.tasks
    unfolding start_call resume_call
    start_call-other (ok future) s =
        resume_by-other _ _ (register_boxed future s).1 ∙ ap (get j) (register_boxed-tasks future s)
    start_call-other (err e) s = resume_by-other _ _ s
    start_call-other panic s = refl

    finish_command-other :
        (r : Result Value) (s : Scheduler H Fut)
        → get j (finish_command id r s).1.tasks ≡ get j s.tasks
    unfolding finish_command
    finish_command-other r s = resume_by-other _ _ s

    start_command-other :
        (t : ScriptTask) (r : Result Fut) (s : Scheduler H Fut)
        → get j (start_command id t r s).1.tasks ≡ get j s.tasks
    unfolding start_command wait_for
    start_command-other t (ok future) s =
        set_task-other _ _ ∙ ap (get j) (register_boxed-tasks future s)
    start_command-other t (err e) s = finish_command-other _ s
    start_command-other t panic s = refl

    change_host-other :
        (f : H → Result (Unit {0}) × H) (host : Option H) (s : Scheduler H Fut)
        → get j (change_host f id host s).1.tasks ≡ get j s.tasks
    unfolding change_host
    change_host-other f none s = finish_command-other _ s
    change_host-other f (some h) s = finish_command-other _ _

    after_registration-other :
        (e : Engine H Fut) (t : ScriptTask) (request : CommandRequest)
        (r : Option (Result (Unit {0}))) (host : Option H) (s : Scheduler H Fut)
        → get j (after_registration e id t request r host s).1.tasks ≡ get j s.tasks
    unfolding after_registration
    after_registration-other e t request (some r) host s = finish_command-other _ s
    after_registration-other e t request none host s = start_command-other t _ s

    try_registration-other :
        (e : Engine H Fut) (t : ScriptTask) (request : CommandRequest) (host : Option H)
        (s : Scheduler H Fut)
        → get j (try_registration e id t request host s).1.tasks ≡ get j s.tasks
    unfolding try_registration
    try_registration-other e t request none s = after_registration-other e t request none none s
    try_registration-other e t request (some h) s = after_registration-other e t request _ _ _

    run_command-other :
        (e : Engine H Fut) (t : ScriptTask) (request : CommandRequest) (s : Scheduler H Fut)
        → get j (run_command e id t request s).1.tasks ≡ get j s.tasks
    unfolding run_command
    run_command-other e t request s = ground (
      arith,
      change_host-other (λ h. e.define_user_command h request.command) s.host s,
      change_host-other (λ h. e.delete_user_command h request.command) s.host s,
      try_registration-other e t request s.host s,
    )

    await_operation-other :
        (t : ScriptTask) (op : ℕ) (s : Scheduler H Fut)
        → get j (await_operation id t op s).1.tasks ≡ get j s.tasks
    unfolding await_operation resume_task fail_task wait_for
    await_operation-other t op s = elim (Option-cases (get op s.completed_operations)) [
      | inr (result, found) ↦ rw (found, await_operation) (resume_by-other _ _ _)
      | inl missing ↦
          rw (missing, await_operation)
            (elim (Bool-cases (is_some (get op s.operations))) [
              | inl there ↦ rw there (set_task-other _ _)
              | inr unknown ↦ rw unknown (set_task-other _ s)
            ])
    ]

    after_run-other :
        (e : Engine H Fut) (t : ScriptTask) (r : Result VmRunOutcome) (s : Scheduler H Fut)
        → get j (after_run e id t r s).1.tasks ≡ get j s.tasks
    unfolding after_run push_ready
    after_run-other e t (ok VmRunOutcome.yielded) s = set_task-other _ s
    after_run-other e t (ok (VmRunOutcome.completed v)) s = set_task-other _ s
    after_run-other e t (ok (VmRunOutcome.host_call request)) s = start_call-other _ s
    after_run-other e t (ok (VmRunOutcome.option_call request)) s = start_call-other _ s
    after_run-other e t (ok (VmRunOutcome.command_call request)) s = run_command-other e t request s
    after_run-other e t (ok (VmRunOutcome.waiting op)) s = await_operation-other t op s
    after_run-other e t (err x) s = set_task-other _ s
    after_run-other e t panic s = refl

    run_ready-other :
        (e : Engine H Fut) (t : ScriptTask) (st : TaskState) (s : Scheduler H Fut)
        → get j (run_ready e id t st s).1.tasks ≡ get j s.tasks
    unfolding run_ready
    run_ready-other e t TaskState.ready s = after_run-other e _ _ _ ∙ set_task-other _ s
    run_ready-other e t TaskState.running s = refl
    run_ready-other e t (TaskState.waiting op) s = refl
    run_ready-other e t (TaskState.completed v) s = refl
    run_ready-other e t (TaskState.failed x) s = refl
    run_ready-other e t TaskState.cancelled s = refl

    pub run_task-other :
        (e : Engine H Fut) (s : Scheduler H Fut) → get j (run_task e id s).1.tasks ≡ get j s.tasks
    unfolding run_task
    run_task-other e s = elim (Option-cases (get id s.tasks)) [
      | inl missing ↦ rw (missing, run_task) refl
      | inr (t, found) ↦ rw (found, run_task) (run_ready-other e t t.state s)
    ]
