-- ===== src/Runtime/Scheduler/Tests.antt =====
-- src/runtime/scheduler.rs: a scheduler at work, and the theorems on it at concrete inputs.
use vim_script.Prelude.{
  ℕ, suc, ◌≡◌, ◌⊎◌, refl, none, some, [], ◌∷◌, arith, get, put, member, pos, ◌+ℤ◌,
}
use vim_script.Runtime.Error.{Result, ok, err, panic}
use vim_script.Runtime.Value.{Value}
use vim_script.Runtime.Vm.Tests.{plain, adding_vm}
use vim_script.Bytecode.{find_function}
use vim_script.Runtime.Arithmetic.{binary, numeric, checked, integer_or_overflow}
use vim_script.Runtime.Vm.State.{Vm, VmStatus, default_limits, pop, push, set_frame, unwind}
use vim_script.Runtime.Vm.Lookups.{prototype, constant_value}
use vim_script.Runtime.Vm.Calls.{return, leave_frame, pop_or_null, retain_below}
use vim_script.Runtime.Vm.Step.{
  step, on_budget, run_instruction, run_in, fetch, exec, load_local, store_local,
  binary_instruction,
}
use vim_script.Runtime.Vm.Run.{started, set_status, after_step, run_steps, from_status, run_quantum}
use vim_script.Runtime.Scheduler.State.{
  TaskState, ScriptTask, done, Engine, Scheduler, empty, install, add_child, set_task, push_ready,
  add_task, parent_exists, spawn_child, task_result, result_of_state, terminal_result,
  collect_wakes, enqueue_all,
}
use vim_script.Runtime.Scheduler.Tick.{
  poll_one_operation, poll_queued, after_polling, run_next, run_task, run_ready, after_run,
  progressed, tick, no_host,
}
use vim_script.Runtime.Scheduler.Drive.{returned, run_until_complete, run_until_stalled}
use vim_script.Runtime.Scheduler.Sane.{queued, Sane, settle-Sane}
use vim_script.Runtime.Scheduler.Sane.Resume.{Fine}
use vim_script.Runtime.Scheduler.Sane.Tick.{tick-Fine}
use vim_script.Runtime.Scheduler.Kept.{tick-Kept, run_until_complete-result}
use vim_script.Runtime.Scheduler.Cancel.{Nested, children_of}
use vim_script.Runtime.Scheduler.Cancel.Ends.{Cancels, cancel-Cancels}
use vim_script.Runtime.Scheduler.Spawn.{
  Spawned, next-Sane, fresh-Unattended, empty-Sane, empty-Nested, spawn_child-Spawned,
}
use vim_script.Runtime.Scheduler.Reachable.{
  Reachable, start, spawned, ticked, Reachable-Sane, Reachable-Cancels,
}

-- A host that refuses every request, and futures that are done when they are polled.
abbrev refusing : Engine (Unit {0}) (Result Value)
refusing = record {
  platform = plain;
  poll = λ future. done future;
  install_globals = λ h vm. vm;
  dispatch = λ h request. err no_host;
  dispatch_option = λ h request. err no_host;
  define_user_command = λ h command. (err no_host, h);
  delete_user_command = λ h command. (err no_host, h);
  handle_registration_command = λ h request. (none, h);
  prepare_command = λ h request. ok request;
  dispatch_command = λ h request. err no_host;
}

abbrev idle : Scheduler (Unit {0}) (Result Value)
idle = empty 10

abbrev one_task : Scheduler (Unit {0}) (Result Value)
one_task = (spawn_child refusing adding_vm none idle).1

-- The second task is a child of the first.
abbrev two_tasks : Scheduler (Unit {0}) (Result Value)
two_tasks = (spawn_child refusing adding_vm (some 0) one_task).1

first_spawn : Spawned idle (spawn_child refusing adding_vm none idle).0 one_task
first_spawn = spawn_child-Spawned refusing adding_vm none idle (empty-Sane 10) (empty-Nested 10)

second_spawn : Spawned one_task (spawn_child refusing adding_vm (some 0) one_task).0 two_tasks
second_spawn =
    spawn_child-Spawned refusing adding_vm (some 0) one_task first_spawn.sane first_spawn.nested

spawn_child-Spawned_example : Spawned idle (spawn_child refusing adding_vm none idle).0 one_task
spawn_child-Spawned_example =
    spawn_child-Spawned refusing adding_vm none idle (empty-Sane 10) (empty-Nested 10)

tick-Fine_example : Fine (tick refusing two_tasks)
tick-Fine_example = tick-Fine refusing two_tasks second_spawn.sane

two_tasks-next : two_tasks.next_task_id ≡ 2
unfolding spawn_child add_task empty install add_child set_task push_ready parent_exists get put
two_tasks-next = refl

cancel-Cancels_example : Cancels 2 0 two_tasks
cancel-Cancels_example =
    cancel-Cancels 2 0 two_tasks second_spawn.sane second_spawn.nested (omega arith)
      (ground (arith, two_tasks-next))

abbrev done_task : ScriptTask
done_task = record {
  id = 0;
  vm = adding_vm;
  parent = none;
  children = [];
  state = TaskState.completed (Value.integer (pos 42));
}

abbrev just_done : Scheduler (Unit {0}) (Result Value)
just_done = set_task 0 done_task (record idle { next_task_id = 1 })

-- The first task has finished, and the second one is ready.
abbrev half_done : Scheduler (Unit {0}) (Result Value)
half_done = (spawn_child refusing adding_vm none just_done).1

numbered : Sane (record idle { next_task_id = 1 })
unfolding empty
numbered = next-Sane idle (empty-Sane 10)

half_done-Sane : Sane (set_task 0 done_task (record idle { next_task_id = 1 }))
unfolding empty queued
half_done-Sane = settle-Sane 0 done_task _ refl numbered (fresh-Unattended idle (empty-Sane 10))

half_done-Nested : Nested (set_task 0 done_task (record idle { next_task_id = 1 }))
unfolding empty set_task put get children_of member
half_done-Nested = record { above = λ id c m. ground arith; known = λ id c m. ground arith }

half_done-Spawned : Spawned just_done (spawn_child refusing adding_vm none just_done).0 half_done
half_done-Spawned =
    spawn_child-Spawned refusing adding_vm none just_done half_done-Sane half_done-Nested

half_done-finished : terminal_result 0 half_done ≡ some (ok (Value.integer (pos 42)))
unfolding spawn_child add_task empty install add_child set_task push_ready parent_exists get put
    terminal_result task_result result_of_state
half_done-finished = refl

tick-Kept_example :
    terminal_result 0 (tick refusing half_done).1 ≡ some (ok (Value.integer (pos 42)))
tick-Kept_example =
    tick-Kept 0 (ok (Value.integer (pos 42))) refusing half_done half_done-Spawned.sane
      half_done-finished

-- Two tasks wait for an operation each.
abbrev waiting_task : ℕ → ScriptTask
waiting_task op = record {
  id = op;
  vm = record adding_vm { status = VmStatus.suspended op };
  parent = none;
  children = [];
  state = TaskState.waiting op;
}

abbrev both_wait : Scheduler (Unit {0}) (Result Value)
both_wait = record idle {
  operation_queue = 0 ∷ 1 ∷ [];
  queued_operations = 0 ∷ 1 ∷ [];
  operations = (0, ok Value.null) ∷ (1, ok Value.null) ∷ [];
  waiting = (0, 0) ∷ (1, 1) ∷ [];
  next_operation_id = 2;
  next_task_id = 2;
  tasks = (0, waiting_task 0) ∷ (1, waiting_task 1) ∷ [];
}

-- A third task, which begins to await the operation of the first.
abbrev second_waiter : ScriptTask
second_waiter = record (waiting_task 0) { id = 2; state = TaskState.running }

abbrev resumed_vm : Vm
resumed_vm = record adding_vm { stack = Value.null ∷ []; status = VmStatus.ready }

run_two : (run_until_complete refusing 2 [] 0 two_tasks).0 ≡ returned (ok (Value.integer (pos 42)))
unfolding run_until_complete terminal_result task_result result_of_state tick collect_wakes
    enqueue_all poll_one_operation poll_queued after_polling run_next run_task run_ready after_run
    progressed spawn_child add_task empty install add_child set_task push_ready parent_exists get
    put run_quantum from_status run_steps after_step started set_status default_limits step
    on_budget run_instruction run_in fetch prototype exec load_local store_local constant_value
    binary_instruction return leave_frame pop_or_null pop push set_frame unwind retain_below binary
    numeric checked integer_or_overflow ◌+ℤ◌ find_function
run_two = refl

run_until_complete-result_example :
    (terminal_result 0 (run_until_complete refusing 2 [] 0 two_tasks).1
      ≡ some (ok (Value.integer (pos 42))))
    ⊎ (ok (Value.integer (pos 42)) ≡ panic)
run_until_complete-result_example =
    run_until_complete-result refusing 2 [] 0 two_tasks (ok (Value.integer (pos 42)))
      second_spawn.sane run_two

reached : Reachable refusing two_tasks
reached = spawned adding_vm (some 0) (spawned adding_vm none (start 9))

Reachable-Sane_example : Sane (tick refusing two_tasks).1 × Nested (tick refusing two_tasks).1
Reachable-Sane_example = Reachable-Sane refusing (ticked reached)

Reachable-Cancels_example : Cancels (suc two_tasks.next_task_id) 0 two_tasks
Reachable-Cancels_example = Reachable-Cancels refusing reached 0

stalls : (run_until_stalled refusing 3 two_tasks).0 ≡ returned (ok tt)
unfolding run_until_stalled tick collect_wakes enqueue_all poll_one_operation poll_queued
    after_polling run_next run_task run_ready after_run progressed spawn_child add_task empty
    install add_child set_task push_ready parent_exists get put run_quantum from_status run_steps
    after_step started set_status default_limits step on_budget run_instruction run_in fetch
    prototype exec load_local store_local constant_value binary_instruction return leave_frame
    pop_or_null pop push set_frame unwind retain_below binary numeric checked integer_or_overflow
    ◌+ℤ◌ find_function
stalls = refl
