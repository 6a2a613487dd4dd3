-- ===== src/Runtime/Vm/Safety/Ends.antt =====
-- src/runtime/vm.rs: a machine with an instruction budget does not run for ever.
use vim_script.Prelude.{
  ℕ, zero, suc, ◌<◌, ◌≡◌, ◌∙◌, inl, inr, refl, Bool, true, false, Option, some, List, arith, Text,
}
use vim_script.Bytecode.{BytecodeModule}
use vim_script.Runtime.Value.{Value}
use vim_script.Runtime.Error.{RuntimeError, Result, ok, err, panic}
use vim_script.Runtime.Vm.State.{
  Vm, StepOutcome, VmRunOutcome, VmStatus, Platform, M, error, default_limits,
}
use vim_script.Runtime.Vm.Calls.{dispatch_catchable_error, is_uncatchable}
use vim_script.Runtime.Vm.Step.{step, on_budget}
use vim_script.Runtime.Vm.Run.{
  run_steps, run_quantum, from_status, run, run_result, after_step, after_dispatch, set_status,
  with_globals, started,
}
use vim_script.Runtime.Vm.Safety.{Envelope, Live}
use vim_script.Runtime.Vm.Safety.Calls.{BuiltinsReturn, Stepped}
use vim_script.Runtime.Vm.Safety.Steps.{spend, step-Stepped}
use vim_script.Runtime.Vm.Safety.Run.{grow, Dispatched, dispatch-Dispatched, status-Live}

abbrev Yields : Result VmRunOutcome → Type 0
Yields r = r ≡ ok VmRunOutcome.yielded

module _ (k : ℕ) (rest : M VmRunOutcome)
    (onward : (b : Envelope) (vm : Vm) → Live b vm → b.budget ≡ some k → ¬ Yields (rest vm).0) where
  after_dispatch-ends :
      (b : Envelope) (e : RuntimeError) (r : Result Bool) (vm : Vm)
      → Dispatched b r vm
      → b.budget ≡ some k
      → ¬ Yields (after_dispatch rest e r vm).0
  unfolding after_dispatch
  after_dispatch-ends b e (ok true) vm d q = onward (grow b) vm d.2 q
  after_dispatch-ends b e (ok false) vm d q = λ y. cc
  after_dispatch-ends b e (err x) vm d q = λ y. cc
  after_dispatch-ends b e panic vm d q = λ y. cc

  after_step-ends :
      {E : Type 0} (b : Envelope) (r : Result StepOutcome) (vm : Vm)
      → Stepped b E r vm
      → b.budget ≡ some k
      → ¬ Yields (after_step rest r vm).0
  unfolding after_step
  after_step-ends b (ok StepOutcome.continue) vm (a, inl l) q = onward b vm l q
  after_step-ends b (ok StepOutcome.continue) vm (a, inr (w, e, fs, es, le)) q = absurd (cc)
  after_step-ends b (err e) vm (a, inl l) q =
      after_dispatch-ends b e (dispatch_catchable_error e vm).0 (dispatch_catchable_error e vm).1
        (dispatch-Dispatched e vm l) q
  after_step-ends b (err e) vm (a, inr (w, i, fs, es, le)) q = absurd (cc)
  after_step-ends b r vm s q = λ y. cc

-- Without a budget left a step is refused, and the refusal cannot be caught.
out_of_budget :
    (p : Platform) (n : ℕ) (vm : Vm)
    → vm.instruction_budget ≡ some 0
    → ¬ Yields (run_steps p (suc n) vm).0
unfolding run_steps step on_budget after_step after_dispatch dispatch_catchable_error is_uncatchable
    error
out_of_budget p n vm e = ground arith

module _ (p : Platform) (returns : BuiltinsReturn p) where
  run_steps-ends :
      (n k : ℕ) (b : Envelope) (vm : Vm)
      → Live b vm
      → b.budget ≡ some k
      → k < n
      → ¬ Yields (run_steps p n vm).0
  unfolding run_steps
  run_steps-ends zero k b vm h e lt = absurd (omega arith)
  run_steps-ends (suc n) zero b vm h e lt = out_of_budget p n vm (h.paid ∙ e)
  run_steps-ends (suc n) (suc k) b vm h e lt =
      let s = step-Stepped p returns vm h in
      after_step-ends k (run_steps p n) (λ c w l q. run_steps-ends n k c w l q (omega arith))
        (spend b) (step p vm).0 (step p vm).1 s (rw e)

  from_status-ends :
      (st : VmStatus) (n k : ℕ) (b : Envelope) (vm : Vm)
      → Live b vm
      → b.budget ≡ some k
      → k < n
      → ¬ Yields (from_status p st n vm).0
  unfolding from_status
  from_status-ends (VmStatus.completed v) n k b vm h e lt = λ y. cc
  from_status-ends st n k b vm h e lt =
      run_steps-ends n k b (set_status VmStatus.running vm) (status-Live _ vm h) e lt

  run_result-some :
      (again : Vm → Option (Result Value × Vm)) (r : Result VmRunOutcome) (vm : Vm)
      → ¬ Yields r
      → (x : Result Value × Vm) × (run_result p again r vm ≡ some x)
  unfolding run_result
  run_result-some again (ok VmRunOutcome.yielded) vm h = absurd (h refl)
  run_result-some again r vm h = (_, refl)

  -- A machine in order with a budget below the quantum has its result after one round of `run`.
  pub run-some :
      (rounds quantum k : ℕ) (b : Envelope) (vm : Vm)
      → Live b vm
      → b.budget ≡ some k
      → k < quantum
      → (x : Result Value × Vm) × (run p (suc rounds) quantum vm ≡ some x)
  unfolding run run_quantum
  run-some rounds quantum k b vm h e lt =
      run_result-some _ _ _ (from_status-ends vm.status quantum k b vm h e lt)

-- What a new machine may use.
abbrev pub default_envelope : Envelope
default_envelope = record { bound = 65_536; budget = some 10_000_000 }

pub with_globals-Live :
    (m : BytecodeModule) (globals : List (Text × Value)) (vm : Vm)
    → with_globals m globals ≡ ok vm
    → Live default_envelope vm
unfolding with_globals started default_limits
with_globals-Live m globals vm e = ground arith

module _ (p : Platform) (returns : BuiltinsReturn p) where
  -- `Vm::run` of a machine that `with_globals` has made, with builtins that return, has a result
  -- after one round, when the quantum is above the default budget of ten million instructions.
  pub run-with_globals :
      (m : BytecodeModule) (globals : List (Text × Value)) (vm : Vm) (rounds quantum : ℕ)
      → with_globals m globals ≡ ok vm
      → 10_000_000 < quantum
      → (x : Result Value × Vm) × (run p (suc rounds) quantum vm ≡ some x)
  run-with_globals m globals vm rounds quantum e lt =
      run-some p returns rounds quantum 10_000_000 default_envelope vm
        (with_globals-Live m globals vm e) refl lt
