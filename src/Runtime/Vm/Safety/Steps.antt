-- ===== src/Runtime/Vm/Safety/Steps.antt =====
-- src/runtime/vm.rs: every step keeps the machine in order.
use vim_script.Prelude.{
  get_elem?, Option-cases, text, show_ℕ, ◌++◌, ℕ, zero, suc, ◌≤◌, ◌<◌, ◌≡◌, ◌⊎◌, inl, inr, refl, ap,
  Option, none, some, List, [], ◌∷◌, arith, length, negsuc,
}
use vim_script.Ast.{BinaryOperator}
use vim_script.Bytecode.{FunctionPrototype, function_of, Instruction}
use vim_script.Runtime.Value.{Value}
use vim_script.Runtime.Error.{RuntimeError, ok, err, RuntimeErrorKind}
use vim_script.Runtime.Vm.State.{Vm, CallFrame, Platform, set_frame, error}
use vim_script.Runtime.Vm.Lookups.{prototype}
use vim_script.Runtime.Vm.Step.{fetch, run_in, run_instruction, on_budget, step}
use vim_script.Runtime.Vm.Safety.{Envelope, Depths, Live}
use vim_script.Runtime.Vm.Safety.Operators.{i64_min}
use vim_script.Runtime.Vm.Safety.Calls.{BuiltinsReturn, Stepped}
use vim_script.Runtime.Vm.Safety.Exec.{exec-Stepped}

unfoldable pub instruction_in : Option FunctionPrototype → ℕ → Option Instruction
instruction_in none ip = none
instruction_in (some f) ip = get_elem? f.code ip

unfoldable pub instruction_of : List CallFrame → Option Instruction
unfolding instruction_in
instruction_of [] = none
instruction_of (f ∷ fs) = instruction_in (function_of f.module_of f.function) f.instruction_pointer

-- The instruction that the running frame is at.
unfoldable pub next_instruction : Vm → Option Instruction
unfolding instruction_of
next_instruction vm = instruction_of vm.frames

set_frame-Live : {b : Envelope} (g : CallFrame) (vm : Vm) → Live b vm → Live b (set_frame g vm).1
unfolding set_frame
set_frame-Live g vm h = ground arith

-- An instruction is paid for, where there is a budget.
abbrev pub spent : Option ℕ → Option ℕ
spent none = none
spent (some zero) = some zero
spent (some (suc n)) = some n

abbrev pub spend : Envelope → Envelope
spend b = record b { budget = spent b.budget }

-- The machine's order, but for its budget.
record InOrder (b : Envelope) (vm : Vm) : Type 0 where
  framed : 0 < length vm.frames
  depths : Depths (length vm.frames) vm.exceptions
  bounded : length vm.stack ≤ b.bound
  capped : vm.limits.max_stack_size ≤ b.bound

Live-repaid :
    (vm : Vm) (b : Envelope)
    → vm.instruction_budget ≡ spent b.budget
    → InOrder b vm
    → Live (spend b) vm
Live-repaid vm b e h = record {
  framed = h.framed;
  depths = h.depths;
  bounded = h.bounded;
  capped = h.capped;
  paid = e;
}

in_order : (vm : Vm) (b : Envelope) → Live b vm → InOrder b vm
in_order vm b h = record {
  framed = h.framed;
  depths = h.depths;
  bounded = h.bounded;
  capped = h.capped;
}

fetch-cases :
    (f : CallFrame) (vm : Vm)
    → ((i : Instruction) × (fetch f vm ≡ (ok i, vm))
        × (instruction_in (function_of f.module_of f.function) f.instruction_pointer ≡ some i))
      ⊎ ((e : RuntimeError) × (fetch f vm ≡ (err e, vm)))
unfolding fetch prototype instruction_in
fetch-cases f vm = elim (Option-cases (function_of f.module_of f.function)) [
  | inl missing ↦ inr (
    error vm RuntimeErrorKind.internal
        (text "function " ++ (show_ℕ f.function ++ text " is missing")),
    rw missing,
  )
  | inr (proto, found) ↦ elim (Option-cases (get_elem? proto.code f.instruction_pointer)) [
    | inl out ↦ inr (
      error vm RuntimeErrorKind.internal (text "instruction pointer is out of bounds"),
      rw found (rw out),
    )
    | inr (i, at) ↦ inl (i, rw found (rw at), rw found at)
  ]
]

-- A remainder of the least `i64` by -1 comes next.
abbrev pub AtRemainder : Vm → Type 0
AtRemainder vm =
    (rest : List Value) × (next_instruction vm ≡ some (Instruction.binary BinaryOperator.remainder))
    × (vm.stack ≡ Value.integer (negsuc 0) ∷ Value.integer i64_min ∷ rest)

module _ (p : Platform) (returns : BuiltinsReturn p) where
  run_in-Stepped :
      {b : Envelope}
      → (f : CallFrame) (fs : List CallFrame) (vm : Vm) → vm.frames ≡ f ∷ fs
      → Live b vm
      → Stepped b (AtRemainder vm) (run_in p f vm).0 (run_in p f vm).1
  unfolding run_in set_frame next_instruction
  run_in-Stepped {b} f fs vm e h = elim (fetch-cases f vm) [
    | inl (i, fetched, at) ↦
        let g : CallFrame = record f { instruction_pointer = suc f.instruction_pointer } in
        let s = exec-Stepped p returns f.module_of f.function i _ (set_frame-Live g vm h) in
        rw fetched (λ q. let (o, rest, st) = s.0 q in (rest, rw e (rw at (ap some o)), st), s.1)
    | inr (x, failed) ↦ rw failed (λ q. cc, inl h)
  ]

  run_frames-Stepped :
      {b : Envelope}
      → (fs : List CallFrame) (vm : Vm) → vm.frames ≡ fs
      → Live b vm
      → Stepped b (AtRemainder vm) (run_instruction p fs vm).0 (run_instruction p fs vm).1
  unfolding run_instruction
  run_frames-Stepped [] vm e h = (λ q. cc, inl h)
  run_frames-Stepped (f ∷ fs) vm e h = run_in-Stepped f fs vm e h

  budget-Stepped :
      {b : Envelope} (left : Option ℕ) (vm : Vm)
      → left ≡ b.budget
      → Live b vm
      → Stepped (spend b) (AtRemainder vm) (on_budget p left vm).0 (on_budget p left vm).1
  unfolding on_budget next_instruction
  budget-Stepped {b} none vm e h =
      run_frames-Stepped {b = spend b} vm.frames vm refl
        (Live-repaid vm b (rw (h.paid, ← e)) (in_order vm b h))
  budget-Stepped {b} (some zero) vm e h =
      (λ q. cc, inl (Live-repaid vm b (rw (h.paid, ← e)) (in_order vm b h)))
  budget-Stepped {b} (some (suc n)) vm e h =
      run_frames-Stepped {b = spend b} vm.frames (record vm { instruction_budget = some n }) refl
        (Live-repaid (record vm { instruction_budget = some n }) b (rw (← e))
          (record { framed = h.framed; depths = h.depths; bounded = h.bounded; capped = h.capped }))

  -- A step of a machine in order, with builtins that return, leaves it in order, or has run the
  -- last `Return` and leaves no frame and no handler behind; its stack stays within the bound, and it
  -- has paid one instruction of the budget. It aborts the program only where the machine is
  -- at a remainder of the least `i64` by -1.
  pub step-Stepped :
      {b : Envelope} (vm : Vm)
      → Live b vm
      → Stepped (spend b) (AtRemainder vm) (step p vm).0 (step p vm).1
  unfolding step
  step-Stepped vm h = budget-Stepped vm.instruction_budget vm h.paid h
