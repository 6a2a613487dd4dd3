-- ===== src/Runtime/Vm/Safety/Calls.antt =====
-- src/runtime/vm.rs: calls, returns and throws keep the machine in order.
use vim_script.Prelude.{
  ℕ, suc, ◌≤◌, ◌<◌, ◌≡◌, ◌≢◌, ◌⊎◌, inl, inr, refl, List, [], ◌∷◌, arith, leb, length,
  length-truncate,
}
use vim_script.Runtime.Value.{Value, Entries}
use vim_script.Runtime.Error.{Result, ok, panic}
use vim_script.Runtime.Arithmetic.{dictionary_key}
use vim_script.Runtime.Vm.State.{
  Vm, CallFrame, ExceptionFrame, StepOutcome, Closure, Platform, M, push, pop, pop_many,
}
use vim_script.Runtime.Vm.Lookups.{builtin_exists, prototype}
use vim_script.Runtime.Vm.Calls.{
  call, call_value, call_closure, pop_or_null, leave_frame, return, throw_to, throw,
}
use vim_script.Runtime.Vm.Step.{collect_pairs}
use vim_script.Runtime.Vm.Safety.{
  Envelope, Depths, Depths-mono, Live, Sound, pop-Sound, pop_many-Sound, unwind-Depths,
  retain_below-Depths, length-unwind,
}
use vim_script.Runtime.Vm.Safety.Rules.{bind-Sound, if-Sound}

-- The registry of builtin functions does not abort the program.
abbrev pub BuiltinsReturn : Platform → Type 0
BuiltinsReturn p = (name : List ℕ) (arguments : List Value) → p.builtin_call name arguments ≢ panic

pub call_closure-Sound :
    {b : Envelope}
    → (n : ℕ) (c : Closure) (arguments : List Value) (vm : Vm) → Live b vm
    → Sound b (call_closure n c arguments) vm
unfolding call_closure prototype
call_closure-Sound n c arguments vm h =
    ground (arith, Depths-mono (length vm.frames) (suc (length vm.frames)) vm.exceptions)

pub collect_pairs-ne-panic : (vs : List Value) (es : Entries) → collect_pairs vs es ≢ panic
unfolding collect_pairs dictionary_key
collect_pairs-ne-panic [] es = λ e. cc
collect_pairs-ne-panic (k ∷ []) es = λ e. cc
collect_pairs-ne-panic (Value.string s ∷ v ∷ rest) es = collect_pairs-ne-panic rest _
collect_pairs-ne-panic (Value.integer n ∷ v ∷ rest) es = collect_pairs-ne-panic rest _
collect_pairs-ne-panic (k ∷ v ∷ rest) es = λ e. cc

module _ (p : Platform) (returns : BuiltinsReturn p) where
  pub call_value-Sound :
      {b : Envelope}
      → (n : ℕ) (arguments : List Value) (callee : Value) (vm : Vm) → Live b vm
      → Sound b (call_value p n arguments callee) vm
  unfolding call_value builtin_exists push
  call_value-Sound n arguments (Value.builtin name) vm h = ground (arith, returns name arguments)
  call_value-Sound n arguments (Value.closure a f cs) vm h = call_closure-Sound _ _ arguments vm h
  call_value-Sound n arguments callee vm h = (λ e. cc, h)

  pub call-Sound : {b : Envelope} → (n : ℕ) (vm : Vm) → Live b vm → Sound b (call p n) vm
  unfolding call
  call-Sound n vm h =
      if-Sound (leb vm.limits.max_call_depth (length vm.frames)) _ _ vm (λ e. cc, h)
        (bind-Sound (pop_many n) _ vm (pop_many-Sound n vm h) λ arguments vm₁ h₁.
          bind-Sound pop _ vm₁ (pop-Sound vm₁ h₁) (call_value-Sound n arguments))

-- A step either leaves the machine in order, or was the last `Return`: the program is done. It
-- aborts under the condition `E` only.
abbrev pub Stepped : Envelope → Type 0 → Result StepOutcome → Vm → Type 0
Stepped b E r vm =
    (r ≡ panic → E)
    × (Live b vm
        ⊎ ((v : Value) × (r ≡ ok (StepOutcome.completed v))
            × (vm.frames ≡ [])
            × (vm.exceptions ≡ [])
            × (length vm.stack ≤ b.bound)))

pub Sound-Stepped :
    {b : Envelope}
    → (E : Type 0) (m : M StepOutcome) (vm : Vm) → Sound b m vm
    → Stepped b E (m vm).0 (m vm).1
Sound-Stepped E m vm h = (λ e. absurd (h.0 e), inl h.1)

pub Depths-zero : (es : List ExceptionFrame) → Depths 0 es → es ≡ []
Depths-zero [] d = refl
Depths-zero (e ∷ es) d = absurd (omega arith)

pub length-pop_or_null-le : (vs : List Value) → length (pop_or_null vs).1 ≤ length vs
unfolding pop_or_null
length-pop_or_null-le [] = omega arith
length-pop_or_null-le (v ∷ vs) = omega arith

pub leave_frame-Stepped :
    {b : Envelope}
    → (fs : List CallFrame) (vm : Vm) → 0 < length fs
    → Depths (length fs) vm.exceptions
    → length vm.stack ≤ b.bound
    → vm.limits.max_stack_size ≤ b.bound
    → vm.instruction_budget ≡ b.budget
    → Stepped b ⊥ (leave_frame fs vm).0 (leave_frame fs vm).1
unfolding leave_frame push
leave_frame-Stepped [] vm l d bd cp bg = absurd (omega arith)
leave_frame-Stepped (f ∷ []) vm l d bd cp bg = (
  λ e. cc,
  inr (
    (pop_or_null vm.stack).0,
    refl,
    refl,
    Depths-zero _ (retain_below-Depths 1 0 vm.exceptions d),
    omega (
      arith,
      length-truncate f.stack_base (pop_or_null vm.stack).1,
      length-pop_or_null-le vm.stack,
    ),
  ),
)
leave_frame-Stepped (f ∷ g ∷ fs) vm l d bd cp bg = ground (
  arith,
  retain_below-Depths (suc (suc (length fs))) (suc (length fs)) vm.exceptions d,
  length-truncate f.stack_base (pop_or_null vm.stack).1,
  length-pop_or_null-le vm.stack,
)

pub return-Stepped :
    {b : Envelope} → (vm : Vm) → Live b vm → Stepped b ⊥ (return vm).0 (return vm).1
unfolding return
return-Stepped vm h = leave_frame-Stepped vm.frames vm h.framed h.depths h.bounded h.capped h.paid

module _ (p : Platform) where
  pub throw_to-Sound :
      {b : Envelope}
      → (v : Value) (es : List ExceptionFrame) (vm : Vm) → 0 < length vm.frames
      → Depths (length vm.frames) es
      → es ≡ vm.exceptions
      → length vm.stack ≤ b.bound
      → vm.limits.max_stack_size ≤ b.bound
      → vm.instruction_budget ≡ b.budget
      → Sound b (throw_to p v es) vm
  unfolding throw_to push
  throw_to-Sound v [] vm l d e bd cp bg = ground arith
  throw_to-Sound v (ex ∷ es) vm l d e bd cp bg = ground (
    arith,
    unwind-Depths ex es vm.frames d,
    length-unwind ex.frame_depth vm.frames,
    length-truncate ex.stack_depth vm.stack,
  )

  pub throw-Sound : {b : Envelope} → (vm : Vm) → Live b vm → Sound b (throw p) vm
  unfolding throw
  throw-Sound vm h =
      bind-Sound pop _ vm (pop-Sound vm h)
        λ v w l. throw_to-Sound v w.exceptions w l.framed l.depths refl l.bounded l.capped l.paid
