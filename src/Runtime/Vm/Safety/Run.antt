-- ===== src/Runtime/Vm/Safety/Run.antt =====
-- src/runtime/vm.rs: a quantum of steps keeps the machine in order and ends.
use vim_script.Prelude.{
  ℕ, zero, suc, ◌+◌, ◌≤◌, ◌<◌, ◌≡◌, ◌≢◌, ◌⊎◌, inl, inr, refl, subst, Bool, true, false, List, [],
  ◌∷◌, arith, length, length-truncate,
}
use vim_script.Runtime.Value.{Value}
use vim_script.Runtime.Error.{RuntimeError, Result, ok, err, panic}
use vim_script.Runtime.Vm.State.{
  Vm, ExceptionFrame, StepOutcome, VmRunOutcome, VmStatus, Platform, M,
}
use vim_script.Runtime.Vm.Calls.{catch_with, dispatch_catchable_error}
use vim_script.Runtime.Vm.Step.{step}
use vim_script.Runtime.Vm.Run.{run_steps, after_step, after_dispatch, set_status}
use vim_script.Runtime.Vm.Safety.{Envelope, Live, Depths, unwind-Depths, length-unwind}
use vim_script.Runtime.Vm.Safety.Calls.{BuiltinsReturn, Stepped}
use vim_script.Runtime.Vm.Safety.Steps.{AtRemainder, spend, step-Stepped}

-- A caught error is put on the stack whatever its size.
abbrev pub grow : Envelope → Envelope
grow b = record b { bound = suc b.bound }

-- The handling of an error answers whether there is a handler.
abbrev pub Dispatched : Envelope → Result Bool → Vm → Type 0
Dispatched b r vm = (r ≢ panic) × ((x : RuntimeError) → r ≢ err x) × Live (grow b) vm

catch_with-Dispatched :
    {b : Envelope} (e : RuntimeError) (es : List ExceptionFrame) (vm : Vm)
    → es ≡ vm.exceptions
    → Depths (length vm.frames) es
    → Live b vm
    → Dispatched b (catch_with e es vm).0 (catch_with e es vm).1
unfolding catch_with
catch_with-Dispatched e [] vm q d h = ground arith
catch_with-Dispatched e (ex ∷ es) vm q d h = ground (
  arith,
  unwind-Depths ex es vm.frames d,
  length-unwind ex.frame_depth vm.frames,
  length-truncate ex.stack_depth vm.stack,
)

pub dispatch-Dispatched :
    {b : Envelope} (e : RuntimeError) (vm : Vm)
    → Live b vm
    → Dispatched b (dispatch_catchable_error e vm).0 (dispatch_catchable_error e vm).1
unfolding dispatch_catchable_error
dispatch-Dispatched e vm h =
    ground (arith, catch_with-Dispatched e vm.exceptions vm refl h.depths h)

-- The machine after a step, and after the handling of its error.
unfoldable pub landed : Result StepOutcome → Vm → Vm
landed (err e) vm = (dispatch_catchable_error e vm).1
landed _ vm = vm

unfoldable pub machine_after : Platform → ℕ → Vm → Vm
machine_after p zero vm = vm
machine_after p (suc k) vm = machine_after p k (landed (step p vm).0 (step p vm).1)

-- One of the next `n` machines is about to run the remainder that aborts the program.
abbrev pub Aborts : Platform → ℕ → Vm → Type 0
Aborts p n vm = (k : ℕ) × (k < n) × AtRemainder (machine_after p k vm)

abbrev pub Ended : Result VmRunOutcome → Vm → Type 0
Ended r vm =
    (v : Value) × (r ≡ ok (VmRunOutcome.completed v)) × (vm.frames ≡ []) × (vm.exceptions ≡ [])

-- What `n` steps at most leave, which abort the program under the condition `E`: a machine in order, or a program that has ended. The stack may be
-- over its bound by one entry for each error that was caught.
abbrev pub Within : Type 0 → ℕ → Envelope → Result VmRunOutcome → Vm → Type 0
Within E n b r vm =
    (r ≡ panic → E) × (((c : Envelope) × (c.bound ≤ b.bound + n) × Live c vm) ⊎ Ended r vm)

pub status-Live : {b : Envelope} (s : VmStatus) (vm : Vm) → Live b vm → Live b (set_status s vm)
unfolding set_status
status-Live s vm h = ground arith

Within-wider :
    {E : Type 0} (m n : ℕ) (b c : Envelope) (r : Result VmRunOutcome) (vm : Vm)
    → b.bound + m ≤ c.bound + n
    → Within E m b r vm
    → Within E n c r vm
Within-wider m n b c r vm le (a, inl (d, h, l)) = (a, inl (d, omega arith, l))
Within-wider m n b c r vm le (a, inr e) = (a, inr e)

module _ (E : Type 0) (n : ℕ) (rest : M VmRunOutcome) (next : Vm)
    (onward : (b : Envelope) (vm : Vm)
      → vm ≡ next
      → Live b vm
      → Within E n b (rest vm).0 (rest vm).1) where
  after_dispatch-Within :
      (b : Envelope) (e : RuntimeError) (r : Result Bool) (vm : Vm)
      → vm ≡ next
      → Dispatched b r vm
      → Within E (1 + n) b (after_dispatch rest e r vm).0 (after_dispatch rest e r vm).1
  unfolding after_dispatch
  after_dispatch-Within b e (ok true) vm at d =
      Within-wider n (1 + n) (grow b) b _ _ (omega arith) (onward (grow b) vm at d.2)
  after_dispatch-Within b e (ok false) vm at d =
      (λ q. cc, inl (grow b, omega arith, status-Live _ vm d.2))
  after_dispatch-Within b e (err x) vm at d = absurd (d.1 x refl)
  after_dispatch-Within b e panic vm at d = absurd (d.0 refl)

  after_step-Within :
      (b : Envelope) (r : Result StepOutcome) (vm : Vm)
      → landed r vm ≡ next
      → Stepped b E r vm
      → Within E (1 + n) b (after_step rest r vm).0 (after_step rest r vm).1
  unfolding after_step set_status landed
  after_step-Within b (ok StepOutcome.continue) vm at (a, inl l) =
      Within-wider n (1 + n) b b _ _ (omega arith) (onward b vm at l)
  after_step-Within b (err e) vm at (a, inl l) =
      after_dispatch-Within b e (dispatch_catchable_error e vm).0 (dispatch_catchable_error e vm).1
        at (dispatch-Dispatched e vm l)
  after_step-Within b panic vm at (a, inl l) = (λ q. a refl, inl (b, omega arith, l))
  after_step-Within b (ok (StepOutcome.completed v)) vm at (a, inr (w, q, fs, es, le)) =
      (λ q. cc, inr (v, refl, fs, es))
  after_step-Within b (ok o) vm at (a, inl l) = (λ q. cc, inl (b, omega arith, status-Live _ vm l))
  after_step-Within b r vm at (a, inr (w, q, fs, es, le)) = absurd (cc)

module _ (p : Platform) (returns : BuiltinsReturn p) where
  later :
      (n : ℕ) (b : Envelope) (w vm : Vm) {r : Result VmRunOutcome} {after : Vm}
      → w ≡ landed (step p vm).0 (step p vm).1
      → Within (Aborts p n w) n b r after
      → Within (Aborts p (suc n) vm) n b r after
  unfolding machine_after
  later n b w vm at (a, l) = (
    λ q.
        let (k, lt, rest) = a q in
        (suc k, omega arith, subst (λ v. AtRemainder (machine_after p k v)) at rest),
    l,
  )

  -- From a machine in order, and with builtins that return, a quantum leaves a machine in order, or
  -- a program that has ended with no frame and no handler left. The stack stays within its bound and
  -- one value more for each instruction, since the text of a caught error is put there
  -- without a test. The quantum aborts the program only where one of the machines that it goes
  -- through is at a remainder of the least `i64` by -1.
  pub run_steps-Within :
      (n : ℕ) (b : Envelope) (vm : Vm)
      → Live b vm
      → Within (Aborts p n vm) n b (run_steps p n vm).0 (run_steps p n vm).1
  unfolding run_steps machine_after
  run_steps-Within zero b vm h = (λ q. cc, inl (b, omega arith, status-Live _ vm h))
  run_steps-Within (suc n) b vm h =
      let s = step-Stepped p returns vm h in
      Within-wider (1 + n) (suc n) (spend b) b _ _ (omega arith) (
        after_step-Within (Aborts p (suc n) vm) n (run_steps p n)
          (landed (step p vm).0 (step p vm).1)
          (λ c w at l. later n c w vm at (run_steps-Within n c w l)) (spend b) (step p vm).0
          (step p vm).1 refl (λ q. (0, omega arith, s.0 q), s.1))
