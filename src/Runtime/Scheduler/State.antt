-- ===== src/Runtime/Scheduler/State.antt =====
-- src/runtime/scheduler.rs: the scheduler's state, what it calls, and the operations that change
-- one task or one operation. A `HashMap` is a table, and a queue is a list whose head is its front.
use vim_script.Prelude.{
  ℕ, zero, suc, Bool, true, not, ◌&&◌, Option, none, some, List, [], ◌∷◌, ◌++◌, text, leb,
  if◌then◌else◌, length, get, put, is_some, member,
}
use vim_script.Ast.{ExCommand}
use vim_script.Host.{HostRequest, OptionRequest, CommandRequest}
use vim_script.Runtime.Value.{Value}
use vim_script.Runtime.Error.{RuntimeErrorKind, RuntimeError, Result, ok, err, panic, coded}
use vim_script.Runtime.Vm.State.{Vm, Platform}

pub data TaskState : Type 0 where
  ready running : TaskState
  waiting : ℕ → TaskState
  completed : Value → TaskState
  failed : RuntimeError → TaskState
  cancelled : TaskState

pub record ScriptTask : Type 0 where
  pub id : ℕ
  pub vm : Vm
  pub parent : Option ℕ
  pub children : List ℕ
  pub state : TaskState

-- The outcome of a poll: a future that is still to be polled, or its result.
pub data Poll (Fut : Type 0) : Type 0 where
  pending : Fut → Poll Fut
  done : Result Value → Poll Fut

-- What the scheduler calls. The futures are the embedding application's. `H` is the host runtime
-- of src/host.rs; a method that changes it returns the new one.
pub record Engine (H Fut : Type 0) : Type 0 where
  pub platform : Platform
  pub poll : Fut → Poll Fut
  pub install_globals : H → Vm → Vm
  pub dispatch : H → HostRequest → Result Fut
  pub dispatch_option : H → OptionRequest → Result Fut
  pub define_user_command : H → ExCommand → Result (Unit {0}) × H
  pub delete_user_command : H → ExCommand → Result (Unit {0}) × H
  pub handle_registration_command : H → CommandRequest → Option (Result (Unit {0})) × H
  pub prepare_command : H → CommandRequest → Result CommandRequest
  pub dispatch_command : H → CommandRequest → Result Fut

-- `wakes` is what the channel holds.
pub record Scheduler (H Fut : Type 0) : Type 0 where
  pub tasks : List (ℕ × ScriptTask)
  pub ready_queue : List ℕ
  pub instruction_quantum : ℕ
  pub max_tasks : ℕ
  pub waiting : List (ℕ × ℕ)
  pub operations : List (ℕ × Fut)
  pub completed_operations : List (ℕ × Result Value)
  pub queued_operations : List ℕ
  pub operation_queue : List ℕ
  pub wakes : List ℕ
  pub next_task_id : ℕ
  pub next_operation_id : ℕ
  pub host : Option H

-- The result that `run_until_complete` waits for.
unfoldable pub result_of_state : TaskState → Option (Result Value)
result_of_state (TaskState.completed v) = some (ok v)
result_of_state (TaskState.failed e) = some (err e)
result_of_state TaskState.cancelled =
    some
      (err (coded (text "E_CANCELLED") RuntimeErrorKind.cancelled (text "script task cancelled")))
result_of_state _ = none

unfoldable pub task_result : Option ScriptTask → Option (Result Value)
task_result none = none
task_result (some t) = result_of_state t.state

module _ {H Fut : Type 0} where
  unfoldable pub empty : ℕ → Scheduler H Fut
  empty quantum = record {
    tasks = [];
    ready_queue = [];
    instruction_quantum = quantum;
    max_tasks = 1_024;
    waiting = [];
    operations = [];
    completed_operations = [];
    queued_operations = [];
    operation_queue = [];
    wakes = [];
    next_task_id = 0;
    next_operation_id = 0;
    host = none;
  }

  unfoldable pub new : ℕ → Result (Scheduler H Fut)
  new zero = panic
  new (suc quantum) = ok (empty (suc quantum))

  unfoldable pub set_task : ℕ → ScriptTask → Scheduler H Fut → Scheduler H Fut
  set_task id t s = record s { tasks = put id t s.tasks }

  unfoldable pub push_ready : ℕ → Scheduler H Fut → Scheduler H Fut
  push_ready id s = record s { ready_queue = s.ready_queue ++ id ∷ [] }

  unfoldable pub enqueue_operation : ℕ → Scheduler H Fut → Scheduler H Fut
  enqueue_operation op s =
      if is_some (get op s.operations) && not (member op s.queued_operations)
      then record s {
        queued_operations = op ∷ s.queued_operations;
        operation_queue = s.operation_queue ++ op ∷ [];
      }
      else s

  -- `while let Ok(operation) = self.wake_receiver.try_recv()`
  unfoldable pub enqueue_all : List ℕ → Scheduler H Fut → Scheduler H Fut
  enqueue_all [] s = s
  enqueue_all (op ∷ ops) s = enqueue_all ops (enqueue_operation op s)

  unfoldable pub collect_wakes : Scheduler H Fut → Scheduler H Fut
  collect_wakes s = enqueue_all s.wakes (record s { wakes = [] })

  unfoldable pub register_boxed : Fut → Scheduler H Fut → ℕ × Scheduler H Fut
  register_boxed future s =
      let id = s.next_operation_id in
      (
        id,
        enqueue_operation id
            (record s { next_operation_id = suc id; operations = put id future s.operations }),
      )

  unfoldable pub install : Engine H Fut → Option H → Vm → Vm
  install e none vm = vm
  install e (some h) vm = e.install_globals h vm

  unfoldable pub add_child : ℕ → Option ℕ → Scheduler H Fut → Scheduler H Fut
  add_child id none s = s
  add_child id (some parent) s = elim (get parent s.tasks) [
    | none ↦ s
    | some t ↦ set_task parent (record t { children = id ∷ t.children }) s
  ]

  unfoldable pub add_task : Engine H Fut → Vm → Option ℕ → Scheduler H Fut → Scheduler H Fut
  add_task e vm parent s =
      let id = s.next_task_id in
      let t : ScriptTask = record {
        id = id;
        vm = install e s.host vm;
        parent = parent;
        children = [];
        state = TaskState.ready;
      } in
      push_ready id (add_child id parent (set_task id t (record s { next_task_id = suc id })))

  unfoldable pub parent_exists : Option ℕ → Scheduler H Fut → Bool
  parent_exists none s = true
  parent_exists (some parent) s = is_some (get parent s.tasks)

  unfoldable pub spawn_child :
      Engine H Fut → Vm → Option ℕ → Scheduler H Fut → Result ℕ × Scheduler H Fut
  spawn_child e vm parent s =
      if leb s.max_tasks (length s.tasks)
      then (
        err (
            coded (text "E1240") RuntimeErrorKind.resource_limit
              (text "maximum script task count exceeded")),
        s,
      )
      else if parent_exists parent s
      then (ok s.next_task_id, add_task e vm parent s)
      else (
        err (coded (text "E900") RuntimeErrorKind.internal (text "parent task does not exist")),
        s,
      )

  unfoldable pub install_all : Engine H Fut → H → List (ℕ × ScriptTask) → List (ℕ × ScriptTask)
  install_all e h [] = []
  install_all e h ((id, t) ∷ rest) =
      (id, record t { vm = e.install_globals h t.vm }) ∷ install_all e h rest

  unfoldable pub set_host : Engine H Fut → H → Scheduler H Fut → Scheduler H Fut
  set_host e h s = record s { tasks = install_all e h s.tasks; host = some h }

  unfoldable pub terminal_result : ℕ → Scheduler H Fut → Option (Result Value)
  terminal_result id s = task_result (get id s.tasks)
