-- ===== src/Runtime/Scheduler/Families.antt =====
-- src/runtime/scheduler.rs: what keeps every task, its children and the ids that are to be given out.
pub mod Tick
use vim_script.Prelude.{
  ℕ, zero, suc, ◌+◌, ◌<◌, ◌≤◌, ◌≡◌, ◌≢◌, ◌⊎◌, refl, ◌∙◌, ap, Bool, true, false, Option, none, some,
  List, [], ◌∷◌, ◌++◌, text, arith, Option-cases, Bool-cases, inl, inr, Text, get, put, remove,
  get-put, get-remove, is_some, member, without, count, ◌==◌, if◌then◌else◌, leb, text_eq,
}
use vim_script.Host.{CommandRequest}
use vim_script.Runtime.Error.{RuntimeError, Result, ok, err, panic}
use vim_script.Runtime.Value.{Value}
use vim_script.Runtime.Vm.State.{Vm, VmRunOutcome}
use vim_script.Runtime.Vm.Run.{run_quantum}
use vim_script.Runtime.Scheduler.State.{
  TaskState, ScriptTask, Engine, Scheduler, Poll, pending, done, set_task, push_ready,
  register_boxed, enqueue_operation, enqueue_all, collect_wakes,
}
use vim_script.Runtime.Scheduler.Tick.{
  Outcome, after_resume, resume_by, resume_task, resume_call, finish_command, start_call, wait_for,
  start_command, as_null, dispatch_with, change_host, dispatch_prepared, after_registration,
  try_registration, run_command, fail_task, await_operation, after_run, run_ready, run_task,
  progressed, deliver, after_poll, poll_queued, poll_one_operation, run_next, after_polling, tick,
  no_host, unknown_operation,
}
use vim_script.Runtime.Scheduler.Cancel.{Nested, children_of}

-- The same tasks, with the same children.
pub record Same {H Fut : Type 0} (s s' : Scheduler H Fut) : Type 0 where
  pub next : s'.next_task_id ≡ s.next_task_id
  pub families : (j : ℕ) → children_of (get j s'.tasks) ≡ children_of (get j s.tasks)
  pub same_tasks : (j : ℕ) → is_some (get j s'.tasks) ≡ is_some (get j s.tasks)

-- That the scheduler has a task of the id, with the children of `t`.
abbrev pub Has : {H Fut : Type 0} → ℕ → ScriptTask → Scheduler H Fut → Type 0
Has id t s = (is_some (get id s.tasks) ≡ true) × (children_of (get id s.tasks) ≡ t.children)

module _ {H Fut : Type 0} where
  pub Same-refl : (s : Scheduler H Fut) → Same s s
  Same-refl s = record { next = refl; families = λ j. refl; same_tasks = λ j. refl }

  pub Same-trans : {s s' s'' : Scheduler H Fut} → Same s s' → Same s' s'' → Same s s''
  Same-trans a b = record {
    next = b.next ∙ a.next;
    families = λ j. b.families j ∙ a.families j;
    same_tasks = λ j. b.same_tasks j ∙ a.same_tasks j;
  }

  -- Schedulers whose tables of tasks are equal.
  pub Same-of :
      {s s' : Scheduler H Fut} → s'.next_task_id ≡ s.next_task_id → s'.tasks ≡ s.tasks → Same s s'
  Same-of n e = record {
    next = n;
    families = λ j. ap (λ m. children_of (get j m)) e;
    same_tasks = λ j. ap (λ m. is_some (get j m)) e;
  }

  pub Has-Same :
      (id : ℕ) (t : ScriptTask) {s s' : Scheduler H Fut} → Same s s' → Has id t s → Has id t s'
  Has-Same id t k (there, kids) = (k.same_tasks id ∙ there, k.families id ∙ kids)

  pub set_task-Same :
      (id : ℕ) (t : ScriptTask) (s : Scheduler H Fut) → Has id t s → Same s (set_task id t s)
  unfolding set_task children_of
  set_task-Same id t s (there, kids) = record {
    next = refl;
    families = λ j. ground (arith, get-put id j t s.tasks, kids);
    same_tasks = λ j. ground (arith, get-put id j t s.tasks, there);
  }

  pub enqueue_operation-Same : (op : ℕ) (s : Scheduler H Fut) → Same s (enqueue_operation op s)
  unfolding enqueue_operation
  enqueue_operation-Same op s = Same-of (ground arith) (ground arith)

  pub enqueue_all-Same : (ops : List ℕ) (s : Scheduler H Fut) → Same s (enqueue_all ops s)
  unfolding enqueue_all
  enqueue_all-Same [] s = Same-refl s
  enqueue_all-Same (op ∷ ops) s = Same-trans (enqueue_operation-Same op s) (enqueue_all-Same ops _)

  pub register_boxed-Same :
      (future : Fut) (s : Scheduler H Fut) → Same s (register_boxed future s).1
  unfolding register_boxed
  register_boxed-Same future s =
      Same-trans (Same-of refl refl) (enqueue_operation-Same s.next_operation_id _)

  pub after_resume-Same :
      (id : ℕ) (t : ScriptTask) (r : Result (Unit {0})) (vm : Vm) (s : Scheduler H Fut)
      → Has id t s
      → Same s (after_resume id t r vm s).1
  unfolding after_resume push_ready
  after_resume-Same id t (ok u) vm s h = Same-trans (set_task-Same id _ s h) (Same-of refl refl)
  after_resume-Same id t (err e) vm s h = set_task-Same id _ s h
  after_resume-Same id t panic vm s h = Same-refl s

  pub resume_by-Same :
      (message : Text) (method : Vm → Result (Unit {0}) × Vm) (id : ℕ) (s : Scheduler H Fut)
      → Same s (resume_by message method id s).1
  unfolding resume_by children_of
  resume_by-Same message method id s = elim (Option-cases (get id s.tasks)) [
    | inl missing ↦ rw (missing, resume_by) (Same-refl s)
    | inr (t, found) ↦
        rw (found, resume_by)
          (after_resume-Same id t (method t.vm).0 (method t.vm).1 s (rw found refl, rw found refl))
  ]

  pub start_call-Same :
      (id : ℕ) (r : Result Fut) (s : Scheduler H Fut) → Same s (start_call id r s).1
  unfolding start_call resume_call
  start_call-Same id (ok future) s =
      Same-trans (register_boxed-Same future s) (resume_by-Same _ _ id _)
  start_call-Same id (err e) s = resume_by-Same _ _ id s
  start_call-Same id panic s = Same-refl s

  pub finish_command-Same :
      (id : ℕ) (r : Result Value) (s : Scheduler H Fut) → Same s (finish_command id r s).1
  unfolding finish_command
  finish_command-Same id r s = resume_by-Same _ _ id s

  pub start_command-Same :
      (id : ℕ) (t : ScriptTask) (r : Result Fut) (s : Scheduler H Fut)
      → Has id t s
      → Same s (start_command id t r s).1
  unfolding start_command wait_for
  start_command-Same id t (ok future) s h =
      let r = register_boxed-Same future s in
      Same-trans r (Same-trans (Same-of refl refl) (set_task-Same id _ _ (Has-Same id t r h)))
  start_command-Same id t (err e) s h = finish_command-Same id _ s
  start_command-Same id t panic s h = Same-refl s

  pub change_host-Same :
      (f : H → Result (Unit {0}) × H) (id : ℕ) (host : Option H) (s : Scheduler H Fut)
      → Same s (change_host f id host s).1
  unfolding change_host
  change_host-Same f id none s = finish_command-Same id _ s
  change_host-Same f id (some h) s = Same-trans (Same-of refl refl) (finish_command-Same id _ _)

  pub after_registration-Same :
      (e : Engine H Fut) (id : ℕ) (t : ScriptTask) (request : CommandRequest)
      (r : Option (Result (Unit {0}))) (host : Option H) (s : Scheduler H Fut)
      → Has id t s
      → Same s (after_registration e id t request r host s).1
  unfolding after_registration
  after_registration-Same e id t request (some r) host s h = finish_command-Same id _ s
  after_registration-Same e id t request none host s h = start_command-Same id t _ s h

  pub try_registration-Same :
      (e : Engine H Fut) (id : ℕ) (t : ScriptTask) (request : CommandRequest) (host : Option H)
      (s : Scheduler H Fut)
      → Has id t s
      → Same s (try_registration e id t request host s).1
  unfolding try_registration
  try_registration-Same e id t request none s h =
      after_registration-Same e id t request none none s h
  try_registration-Same e id t request (some x) s h =
      Same-trans (Same-of refl refl) (after_registration-Same e id t request _ _ _ h)

  pub run_command-Same :
      (e : Engine H Fut) (id : ℕ) (t : ScriptTask) (request : CommandRequest) (s : Scheduler H Fut)
      → Has id t s
      → Same s (run_command e id t request s).1
  unfolding run_command
  run_command-Same e id t request s h = ground (
    arith,
    change_host-Same (λ x. e.define_user_command x request.command) id s.host s,
    change_host-Same (λ x. e.delete_user_command x request.command) id s.host s,
    try_registration-Same e id t request s.host s h,
  )
