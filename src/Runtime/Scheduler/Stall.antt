-- ===== src/Runtime/Scheduler/Stall.antt =====
-- src/runtime/scheduler.rs: operations that the scheduler loses.
use vim_script.Prelude.{ℕ, List, put, without, remove}
use vim_script.Runtime.Value.{Value}
use vim_script.Runtime.Vm.State.{Vm}
use vim_script.Runtime.Scheduler.State.{ScriptTask, Scheduler, set_task, push_ready, TaskState}
use vim_script.Runtime.Scheduler.Tick.{wait_for}

module _ {H Fut : Type 0} where
  -- After the poll that completes an operation which a task has begun to await.
  delivered : ℕ → ℕ → ScriptTask → Vm → List ℕ → Scheduler H Fut → Scheduler H Fut
  delivered id op t vm rest s = push_ready id (
      set_task id (record t { vm = vm; state = TaskState.ready })
        (record (wait_for id op t s) {
          operation_queue = rest;
          queued_operations = without op s.queued_operations;
          operations = remove op s.operations;
          waiting = remove op (put op id s.waiting);
        }))
