-- ===== src/Runtime/Vm/Safety/Rules.antt =====
-- src/runtime/vm.rs: sound methods put together.
use vim_script.Prelude.{◌≢◌, refl, Bool, true, false, if◌then◌else◌}
use vim_script.Runtime.Value.{Value}
use vim_script.Runtime.Error.{Result, ok, err, panic}
use vim_script.Runtime.Vm.State.{Vm, StepOutcome, M, ◌>>=◌, pure, push}
use vim_script.Runtime.Vm.Step.{done}
use vim_script.Runtime.Vm.Safety.{Envelope, Live, Sound, push-Sound}

abbrev pub SoundAt : Envelope → {A : Type 0} → Result A → Vm → Type 0
SoundAt b r vm = (r ≢ panic) × Live b vm

pub proceed-Sound :
    {b : Envelope}
    → {A B : Type 0} (r : Result A) (f : A → M B) (vm : Vm) → SoundAt b r vm
    → ((a : A) (vm' : Vm) → Live b vm' → Sound b (f a) vm')
    → Sound b ((λ w. (r, w)) >>= f) vm
proceed-Sound (ok a) f vm h k = k a vm h.1
proceed-Sound (err e) f vm h k = (λ e. cc, h.1)
proceed-Sound panic f vm h k = absurd (h.0 refl)

pub bind-Sound :
    {b : Envelope}
    → {A B : Type 0} (m : M A) (f : A → M B) (vm : Vm) → Sound b m vm
    → ((a : A) (vm' : Vm) → Live b vm' → Sound b (f a) vm')
    → Sound b (m >>= f) vm
bind-Sound m f vm h k = proceed-Sound (m vm).0 f (m vm).1 h k

pub done-Sound : {b : Envelope} → (m : M (Unit {0})) (vm : Vm) → Sound b m vm → Sound b (done m) vm
done-Sound m vm h = bind-Sound m (λ _. pure StepOutcome.continue) vm h (λ a vm' l. (λ e. cc, l))

pub if-Sound :
    {k : Envelope}
    → {A : Type 0} (b : Bool) (m n : M A) (vm : Vm) → Sound k m vm
    → Sound k n vm
    → Sound k (if b then m else n) vm
if-Sound true m n vm hm hn = hm
if-Sound false m n vm hm hn = hn

-- A result computed from the machine, then pushed.
pub push_result-Sound :
    {b : Envelope}
    → (r : Vm → Result Value) (vm : Vm) → ((w : Vm) → r w ≢ panic)
    → Live b vm
    → Sound b ((λ w. (r w, w)) >>= push) vm
push_result-Sound r vm never h = bind-Sound (λ w. (r w, w)) push vm (never vm, h) push-Sound
