-- ===== src/Runtime/Vm/Step.antt =====
-- src/runtime/vm.rs: `Vm::step`, one instruction of the running frame.
use vim_script.Prelude.{
  ℕ, zero, suc, ◌+◌, ◌-◌, ◌*◌, Bool, true, false, Option, none, some, List, [], ◌∷◌, ◌++◌, Text,
  text, if◌then◌else◌, length, get_elem?, set, map, insert, ltb,
}
use vim_script.Ast.{BinaryOperator}
use vim_script.Bytecode.{BytecodeModule, FunctionId, Instruction, OptionScopeOperand}
use vim_script.Host.{HostRequest, OptionRequestOperation, OptionRequestScope}
use vim_script.Runtime.Value.{Value, to_list, of_list, Entries, end, is_truthy, type_name}
use vim_script.Runtime.Error.{RuntimeErrorKind, Result, ok, err, panic, bare_error}
use vim_script.Runtime.Arithmetic.{unary, binary, get_index, dict_insert, dict_keys, dictionary_key}
use vim_script.Runtime.Vm.State.{
  CallFrame, ExceptionFrame, IteratorState, Closure, StepOutcome, Platform, M, ◌>>=◌, ◌>>◌, pure,
  lift, gets, modify, raise, or_raise, frame, set_frame, pop, pop_many, push, head?,
}
use vim_script.Runtime.Vm.Lookups.{
  prototype, constant_value, constant_string, constant_command, jump, global_value,
}
use vim_script.Runtime.Vm.Calls.{call, return, throw}

unfoldable pub option_request_scope : OptionScopeOperand → OptionRequestScope
option_request_scope OptionScopeOperand.unqualified = OptionRequestScope.unqualified
option_request_scope OptionScopeOperand.local = OptionRequestScope.local
option_request_scope OptionScopeOperand.global = OptionRequestScope.global

-- `Ok(StepOutcome::Continue)` after an action
abbrev pub done : M (Unit {0}) → M StepOutcome
done m = m >> pure StepOutcome.continue

local_at : List CallFrame → ℕ → Option Value
local_at [] slot = none
local_at (f ∷ fs) slot = get_elem? f.locals slot

unfoldable pub load_local : ℕ → M (Unit {0})
unfolding local_at
load_local slot = do
  v ← λ vm.
      or_raise (local_at vm.frames slot) RuntimeErrorKind.internal
        (text "local slot is out of bounds") vm
  push v

unfoldable pub store_local : ℕ → M (Unit {0})
store_local slot = do
  v ← pop
  f ← frame
  if ltb slot (length f.locals)
      then set_frame (record f { locals = set f.locals slot v })
      else lift (err (bare_error RuntimeErrorKind.internal (text "local slot is out of bounds")))

captured : Option Closure → ℕ → Option Value
captured none slot = none
captured (some c) slot = get_elem? (to_list c.captures) slot

capture_at : List CallFrame → ℕ → Option Value
capture_at [] slot = none
capture_at (f ∷ fs) slot = captured f.closure slot

unfoldable pub load_capture : ℕ → M (Unit {0})
unfolding captured capture_at
load_capture slot = do
  v ← λ vm.
      or_raise (capture_at vm.frames slot) RuntimeErrorKind.internal
        (text "capture slot is out of bounds") vm
  push v

-- `values.chunks_exact(2)` into a `BTreeMap`
unfoldable pub collect_pairs : List Value → Entries → Result Entries
collect_pairs (k ∷ v ∷ rest) es = elim (dictionary_key k) [
  | ok key ↦ collect_pairs rest (dict_insert key v es)
  | err e ↦ err e
  | panic ↦ panic
]
collect_pairs _ es = ok es

-- The values that an iteration runs over.
iterated : Value → M (List Value)
iterated (Value.list vs) = pure (to_list vs)
iterated (Value.dictionary es) = pure (dict_keys es)
iterated (Value.string s) = pure (map (λ c. Value.string (c ∷ [])) s)
iterated other = raise RuntimeErrorKind.type_error (type_name other ++ text " is not iterable")

unfoldable pub iter_start : M (Unit {0})
unfolding iterated
iter_start = do
  iterable ← pop
  values ← iterated iterable
  f ← frame
  set_frame (record f { iterators = record { values = values; cursor = 0 } ∷ f.iterators })

iterate : ℕ → CallFrame → List IteratorState → M (Unit {0})
iterate end_ip f [] =
    lift (err (bare_error RuntimeErrorKind.internal (text "iterator stack underflow")))
iterate end_ip f (it ∷ rest) = elim (get_elem? it.values it.cursor) [
  | none ↦ jump end_ip
  | some v ↦
      set_frame (record f { iterators = record it { cursor = suc it.cursor } ∷ rest }) >> push v
]

unfoldable pub iter_next : ℕ → M (Unit {0})
unfolding iterate
iter_next end_ip = do f ← frame; iterate end_ip f f.iterators

drop_iterator : CallFrame → List IteratorState → M (Unit {0})
drop_iterator f [] = raise RuntimeErrorKind.internal (text "iterator stack underflow")
drop_iterator f (it ∷ rest) = set_frame (record f { iterators = rest })

unfoldable pub iter_end : M (Unit {0})
unfolding drop_iterator
iter_end = do f ← frame; drop_iterator f f.iterators

unfoldable pub try_begin : ℕ → ℕ → M (Unit {0})
try_begin handler depth = modify λ vm. record vm {
  exceptions =
      record {
        frame_depth = length vm.frames - 1;
        stack_depth = length vm.stack + depth;
        handler_ip = handler;
      }
      ∷ vm.exceptions;
}

unfoldable pub drop_first : List ExceptionFrame → List ExceptionFrame
drop_first [] = []
drop_first (e ∷ es) = es

unfoldable pub try_end : M (Unit {0})
unfolding drop_first
try_end = modify (λ vm. record vm { exceptions = drop_first vm.exceptions })

unfoldable pub make_closure : BytecodeModule → FunctionId → ℕ → M (Unit {0})
make_closure m target captures = do
  values ← pop_many captures
  address ← gets (λ vm. vm.next_address)
  modify (λ vm. record vm { next_address = suc vm.next_address })
  push (Value.closure address (record { module_of = m; id = target }) (of_list values))

awaited : Value → M StepOutcome
awaited (Value.future operation) = pure (StepOutcome.waiting operation)
awaited v = raise RuntimeErrorKind.type_error (text "await requires a future, got " ++ type_name v)

unfoldable pub await : M StepOutcome
unfolding awaited
await = do v ← pop; awaited v

unfoldable pub called : Option HostRequest → M StepOutcome
called none = pure StepOutcome.continue
called (some request) = pure (StepOutcome.host_call request)

option_call : OptionRequestOperation → Text → OptionScopeOperand → M StepOutcome
option_call operation name scope = gets λ vm. StepOutcome.option_call (record {
  operation = operation;
  name = name;
  scope = option_request_scope scope;
  context = vm.host_context;
})

-- The instruction that a frame is at.
unfoldable pub fetch : CallFrame → M Instruction
fetch current = do
  proto ← prototype current.module_of current.function
  or_raise (get_elem? proto.code current.instruction_pointer) RuntimeErrorKind.internal
      (text "instruction pointer is out of bounds")

module _ (p : Platform) where
  unfoldable pub jump_when : Bool → ℕ → M (Unit {0})
  jump_when wanted target = do
    v ← pop
    if is_truthy p.floats v
        then (if wanted then jump target else pure tt)
        else (if wanted then pure tt else jump target)

  unfoldable pub binary_instruction : BinaryOperator → M (Unit {0})
  binary_instruction op = do
    right ← pop
    left ← pop
    result ← λ vm. (binary p vm op left right, vm)
    push result

  -- The `match` of `step`, in the function `f` of the module `m`.
  unfoldable pub exec : BytecodeModule → FunctionId → Instruction → M StepOutcome
  unfolding option_call
  exec m f (Instruction.load_constant id) = done (constant_value m f id >>= push)
  exec m f Instruction.load_null = done (push Value.null)
  exec m f (Instruction.load_local slot) = done (load_local slot)
  exec m f (Instruction.store_local slot) = done (store_local slot)
  exec m f (Instruction.load_capture slot) = done (load_capture slot)
  exec m f (Instruction.store_capture slot) =
      raise RuntimeErrorKind.internal (text "mutable captures require shared upvalue cells")
  exec m f (Instruction.load_global id) =
      done (constant_string m f id >>= λ name. global_value p name >>= push)
  exec m f (Instruction.load_scoped scope id) =
      done (constant_string m f id >>= λ name. global_value p name >>= push)
  exec m f (Instruction.store_global id) = done do
    name ← constant_string m f id
    v ← pop
    modify (λ vm. record vm { globals = insert name v vm.globals })
  exec m f (Instruction.store_scoped scope id) = done do
    name ← constant_string m f id
    v ← pop
    modify (λ vm. record vm { globals = insert name v vm.globals })
  exec m f (Instruction.load_option scope id) = do
    name ← constant_string m f id
    option_call OptionRequestOperation.get name scope
  exec m f (Instruction.store_option scope id) = do
    name ← constant_string m f id
    v ← pop
    option_call (OptionRequestOperation.set v) name scope
  exec m f Instruction.pop = done (pop >>= λ _. pure tt)
  exec m f Instruction.duplicate = done do
    v ← λ vm.
        or_raise (head? vm.stack) RuntimeErrorKind.internal (text "operand stack underflow") vm
    push v
  exec m f (Instruction.unary op) =
      done do v ← pop; result ← λ vm. (unary p vm op v, vm); push result
  exec m f (Instruction.binary op) = done (binary_instruction op)
  exec m f (Instruction.build_list count) =
      done do values ← pop_many count; push (Value.list (of_list values))
  exec m f (Instruction.build_dictionary count) = done do
    values ← pop_many (count * 2)
    entries ← lift (collect_pairs values end)
    push (Value.dictionary entries)
  exec m f Instruction.get_index =
      done do index ← pop; target ← pop; v ← λ vm. (get_index p vm target index, vm); push v
  exec m f Instruction.set_index =
      raise RuntimeErrorKind.internal (text "SetIndex is not emitted by the current compiler")
  exec m f (Instruction.get_member id) = done do
    name ← constant_string m f id
    target ← pop
    v ← λ vm. (get_index p vm target (Value.string name), vm)
    push v
  exec m f (Instruction.call argc) = do request ← call p argc; called request
  exec m f (Instruction.call_named id argc) = do
    name ← constant_string m f id
    raise RuntimeErrorKind.name_error
        (text "native function " ++ (name ++ text " is not registered in the synchronous core"))
  exec m f Instruction.return = return
  exec m f (Instruction.make_closure target captures) = done (make_closure m target captures)
  exec m f (Instruction.jump target) = done (jump target)
  exec m f (Instruction.loop target) = done (jump target)
  exec m f (Instruction.jump_if_false target) = done (jump_when false target)
  exec m f (Instruction.jump_if_true target) = done (jump_when true target)
  exec m f Instruction.iter_start = done iter_start
  exec m f (Instruction.iter_next end_ip) = done (iter_next end_ip)
  exec m f Instruction.iter_end = done iter_end
  exec m f (Instruction.try_begin handler depth) = done (try_begin handler depth)
  exec m f Instruction.try_end = done try_end
  exec m f Instruction.throw = throw p
  exec m f Instruction.await = await
  exec m f (Instruction.execute_command id) = do
    command ← constant_command m f id
    gets (λ vm. StepOutcome.command_call (record { command = command; context = vm.host_context }))
  exec m f (Instruction.emit_event id) = done (push Value.null)

  -- Moves the frame past its instruction and runs it.
  unfoldable pub run_in : CallFrame → M StepOutcome
  run_in current = do
    instruction ← fetch current
    set_frame (record current { instruction_pointer = suc current.instruction_pointer })
    exec current.module_of current.function instruction

  unfoldable pub run_instruction : List CallFrame → M StepOutcome
  run_instruction [] vm =
      (err (bare_error RuntimeErrorKind.internal (text "VM has no call frame")), vm)
  run_instruction (current ∷ rest) vm = run_in current vm

  -- The budget is paid first, by every step.
  unfoldable pub on_budget : Option ℕ → M StepOutcome
  on_budget none vm = run_instruction vm.frames vm
  on_budget (some zero) vm =
      raise RuntimeErrorKind.resource_limit (text "instruction limit exceeded") vm
  on_budget (some (suc left)) vm =
      run_instruction vm.frames (record vm { instruction_budget = some left })

  unfoldable pub step : M StepOutcome
  unfolding on_budget
  step vm = on_budget vm.instruction_budget vm
