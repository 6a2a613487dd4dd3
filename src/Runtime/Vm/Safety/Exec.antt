-- ===== src/Runtime/Vm/Safety/Exec.antt =====
-- src/runtime/vm.rs: every instruction keeps the machine in order.
use vim_script.Prelude.{
  Text, ℕ, ◌*◌, ◌≡◌, inl, refl, Bool, true, false, Option, List, arith, length-drop,
}
use vim_script.Ast.{UnaryOperator}
use vim_script.Bytecode.{BytecodeModule, Instruction}
use vim_script.Host.{HostRequest}
use vim_script.Runtime.Value.{Value, end}
use vim_script.Runtime.Error.{Result, ok, err, panic}
use vim_script.Runtime.Arithmetic.{unary, get_index}
use vim_script.Runtime.Vm.State.{
  Vm, StepOutcome, Platform, M, ◌>>=◌, proceed, pure, lift, push, pop, set_frame, pop_many,
}
use vim_script.Runtime.Vm.Lookups.{
  constant_value, constant_string, constant_command, global_value, jump, prototype,
}
use vim_script.Runtime.Vm.Calls.{call}
use vim_script.Runtime.Vm.Step.{called, await, jump_when, exec, collect_pairs}
use vim_script.Runtime.Vm.Safety.{
  Envelope, Live, Sound, push-Sound, pop-Sound, pop_many-Sound, jump-Sound, load_local-Sound,
  store_local-Sound, load_capture-Sound, iter_start-Sound, iter_next-Sound, iter_end-Sound,
  try_begin-Sound, try_end-Sound, make_closure-Sound, constant_string-Sound,
}
use vim_script.Runtime.Vm.Safety.Rules.{bind-Sound, done-Sound, push_result-Sound}
use vim_script.Runtime.Vm.Safety.Operators.{
  unary-ne-panic, get_index-ne-panic, RemainderOverflows, binary_instruction-Sound,
}
use vim_script.Runtime.Vm.Safety.Calls.{
  BuiltinsReturn, collect_pairs-ne-panic, call-Sound, Stepped, Sound-Stepped, return-Stepped,
  throw-Sound,
}

is_plain : Instruction → Bool
is_plain (Instruction.binary op) = false
is_plain Instruction.return = false
is_plain i = true

-- The `Continue` after an instruction.
settled :
    {b : Envelope}
    → (E : Type 0) (r : Result (Unit {0})) (vm : Vm) → ((r ≡ panic → E) × Live b vm)
    → Stepped b E
        (proceed r (λ _. pure StepOutcome.continue) vm).0
        (proceed r (λ _. pure StepOutcome.continue) vm).1
settled E (ok a) vm h = (λ e. cc, inl h.1)
settled E (err x) vm h = (λ e. cc, inl h.1)
settled E panic vm h = (λ e. h.0 refl, inl h.1)

module _ (p : Platform) (returns : BuiltinsReturn p) (m : BytecodeModule) (f : ℕ) where
  called-Sound :
      {b : Envelope} → (r : Option HostRequest) (vm : Vm) → Live b vm → Sound b (called r) vm
  unfolding called
  called-Sound r vm h = ground arith

  await-Sound : {b : Envelope} → (vm : Vm) → Live b vm → Sound b await vm
  unfolding await pop
  await-Sound vm h = ground arith

  jump_when-Sound :
      {b : Envelope} (t : Bool) (n : ℕ) (vm : Vm) → Live b vm → Sound b (jump_when p t n) vm
  unfolding jump_when pop jump prototype set_frame
  jump_when-Sound t n vm h = ground arith

  execute_command-Sound :
      {b : Envelope}
      → (id : ℕ) (vm : Vm) → Live b vm
      → Sound b (exec p m f (Instruction.execute_command id)) vm
  unfolding exec constant_command prototype
  execute_command-Sound id vm h = ground arith

  unary-Sound :
      {b : Envelope}
      → (op : UnaryOperator) (vm : Vm) → Live b vm
      → Sound b (exec p m f (Instruction.unary op)) vm
  unfolding exec
  unary-Sound {b} op vm h =
      done-Sound (pop >>= apply) vm (bind-Sound pop apply vm (pop-Sound vm h) applied)
    where
      apply : Value → M (Unit {0})
      apply v = (λ w. (unary p w op v, w)) >>= push

      applied : (v : Value) (w : Vm) → Live b w → Sound b (apply v) w
      applied v w l = push_result-Sound _ w (unary-ne-panic p op v) l

  build_dictionary-Sound :
      {b : Envelope}
      → (n : ℕ) (vm : Vm) → Live b vm
      → Sound b (exec p m f (Instruction.build_dictionary n)) vm
  unfolding exec
  build_dictionary-Sound n vm h = done-Sound (pop_many (n * 2) >>= entries) vm (
      bind-Sound (pop_many (n * 2)) entries vm (pop_many-Sound (n * 2) vm h) λ vs w l.
        bind-Sound (lift (collect_pairs vs end)) (λ es. push (Value.dictionary es)) w
          (collect_pairs-ne-panic vs end, l) λ es w₁ l₁. push-Sound _ w₁ l₁)
    where
      entries : List Value → M (Unit {0})
      entries vs = lift (collect_pairs vs end) >>= λ es. push (Value.dictionary es)

  lookup_top : Value → M (Unit {0})
  lookup_top i = pop >>= λ t. (λ w. (get_index p w t i, w)) >>= push

  lookup_top-Sound : {b : Envelope} → (i : Value) (vm : Vm) → Live b vm → Sound b (lookup_top i) vm
  unfolding lookup_top
  lookup_top-Sound i vm h =
      bind-Sound pop (λ t. (λ w. (get_index p w t i, w)) >>= push) vm (pop-Sound vm h)
        λ t w l. push_result-Sound _ w (get_index-ne-panic p t i) l

  get_index-Sound :
      {b : Envelope} → (vm : Vm) → Live b vm → Sound b (exec p m f Instruction.get_index) vm
  unfolding exec lookup_top
  get_index-Sound vm h =
      done-Sound (pop >>= lookup_top) vm
        (bind-Sound pop lookup_top vm (pop-Sound vm h) lookup_top-Sound)

  get_member-Sound :
      {b : Envelope}
      → (id : ℕ) (vm : Vm) → Live b vm
      → Sound b (exec p m f (Instruction.get_member id)) vm
  unfolding exec lookup_top
  get_member-Sound id vm h = done-Sound (constant_string m f id >>= member) vm (
      bind-Sound (constant_string m f id) member vm (constant_string-Sound m f id vm h)
        λ name w l. lookup_top-Sound (Value.string name) w l)
    where
      member : Text → M (Unit {0})
      member name = lookup_top (Value.string name)

  call_instruction-Sound :
      {b : Envelope} → (n : ℕ) (vm : Vm) → Live b vm → Sound b (exec p m f (Instruction.call n)) vm
  unfolding exec
  call_instruction-Sound n vm h =
      bind-Sound (call p n) called vm (call-Sound p returns n vm h) called-Sound

  -- Every instruction but the binary operators and `Return`.
  exec-Sound :
      {b : Envelope}
      → (i : Instruction) (vm : Vm) → is_plain i ≡ true
      → Live b vm
      → Sound b (exec p m f i) vm
  unfolding is_plain exec push pop pop_many global_value constant_string constant_value prototype
  exec-Sound (Instruction.load_constant id) vm q h = ground arith
  exec-Sound Instruction.load_null vm q h = ground arith
  exec-Sound (Instruction.load_local n) vm q h = ground (arith, load_local-Sound n vm h)
  exec-Sound (Instruction.store_local n) vm q h = ground (arith, store_local-Sound n vm h)
  exec-Sound (Instruction.load_capture n) vm q h = ground (arith, load_capture-Sound n vm h)
  exec-Sound (Instruction.store_capture n) vm q h = ground arith
  exec-Sound (Instruction.load_global id) vm q h = ground arith
  exec-Sound (Instruction.load_scoped scope id) vm q h = ground arith
  exec-Sound (Instruction.store_global id) vm q h = ground arith
  exec-Sound (Instruction.store_scoped scope id) vm q h = ground arith
  exec-Sound (Instruction.load_option scope id) vm q h = ground arith
  exec-Sound (Instruction.store_option scope id) vm q h = ground arith
  exec-Sound Instruction.pop vm q h = ground arith
  exec-Sound Instruction.duplicate vm q h = ground arith
  exec-Sound (Instruction.unary op) vm q h = unary-Sound op vm h
  exec-Sound (Instruction.binary op) vm q h = absurd (ground arith)
  exec-Sound (Instruction.build_list n) vm q h = ground (arith, length-drop n vm.stack)
  exec-Sound (Instruction.build_dictionary n) vm q h = build_dictionary-Sound n vm h
  exec-Sound Instruction.get_index vm q h = get_index-Sound vm h
  exec-Sound Instruction.set_index vm q h = ground arith
  exec-Sound (Instruction.get_member id) vm q h = get_member-Sound id vm h
  exec-Sound (Instruction.call n) vm q h = call_instruction-Sound n vm h
  exec-Sound (Instruction.call_named id n) vm q h = ground arith
  exec-Sound Instruction.return vm q h = absurd (ground arith)
  exec-Sound (Instruction.make_closure t n) vm q h = ground (arith, make_closure-Sound m t n vm h)
  exec-Sound (Instruction.jump n) vm q h = ground (arith, jump-Sound n vm h)
  exec-Sound (Instruction.loop n) vm q h = ground (arith, jump-Sound n vm h)
  exec-Sound (Instruction.jump_if_false n) vm q h = ground (arith, jump_when-Sound false n vm h)
  exec-Sound (Instruction.jump_if_true n) vm q h = ground (arith, jump_when-Sound true n vm h)
  exec-Sound Instruction.iter_start vm q h = ground (arith, iter_start-Sound vm h)
  exec-Sound (Instruction.iter_next n) vm q h = ground (arith, iter_next-Sound n vm h)
  exec-Sound Instruction.iter_end vm q h = ground (arith, iter_end-Sound vm h)
  exec-Sound (Instruction.try_begin ip n) vm q h = ground (arith, try_begin-Sound ip n vm h)
  exec-Sound Instruction.try_end vm q h = ground (arith, try_end-Sound vm h)
  exec-Sound Instruction.throw vm q h = throw-Sound p vm h
  exec-Sound Instruction.await vm q h = await-Sound vm h
  exec-Sound (Instruction.execute_command id) vm q h = execute_command-Sound id vm h
  exec-Sound (Instruction.emit_event id) vm q h = ground arith

  pub exec-Stepped :
      {b : Envelope}
      → (i : Instruction) (vm : Vm) → Live b vm
      → Stepped b (RemainderOverflows p i vm.stack) (exec p m f i vm).0 (exec p m f i vm).1
  unfolding exec is_plain
  exec-Stepped (Instruction.binary op) vm h =
      settled _ _ _ (binary_instruction-Sound p op vm.stack vm refl h)
  exec-Stepped Instruction.return vm h = let s = return-Stepped vm h in (λ e. absurd (s.0 e), s.1)
  exec-Stepped i vm h = Sound-Stepped _ (exec p m f i) vm (exec-Sound i vm refl h)
