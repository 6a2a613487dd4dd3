-- ===== src/Runtime/Vm/Safety.antt =====
-- src/runtime/vm.rs: what every step of a machine keeps, and that a step does not abort the
-- program.
mod Rules
pub mod Operators
pub mod Calls
mod Exec
pub mod Steps
pub mod Run
pub mod Ends
use vim_script.Prelude.{
  ℕ, zero, suc, ◌+◌, ◌-◌, ◌≤◌, ◌<◌, ◌≡◌, ◌≢◌, refl, Bool, true, false, Option, none, some, List, [],
  ◌∷◌, arith, ltb, if◌then◌else◌, length, truncate, length-truncate, length-drop,
}
use vim_script.Runtime.Value.{Value}
use vim_script.Runtime.Error.{Result, ok, err, panic, RuntimeErrorKind}
use vim_script.Runtime.Vm.State.{
  Vm, CallFrame, ExceptionFrame, M, unwind, push, pop, pop_many, set_frame,
}
use vim_script.Runtime.Vm.Lookups.{
  jump, prototype, constant_value, constant_string, constant_command,
}
use vim_script.Bytecode.{BytecodeModule}
use vim_script.Runtime.Vm.Calls.{retain_below}
use Prim.Native.Nat.{min}
use vim_script.Runtime.Vm.Step.{
  load_local, store_local, load_capture, iter_start, iter_next, iter_end, try_begin, try_end,
  drop_first, make_closure,
}

-- Each handler belongs to a frame that is still there, and a handler that was set up later
-- belongs to the same frame or to one further up.
abbrev pub Depths : ℕ → List ExceptionFrame → Type 0
Depths n [] = Unit {0}
Depths n (e ∷ es) = (e.frame_depth < n) × Depths (suc e.frame_depth) es

pub Depths-mono : (m n : ℕ) (es : List ExceptionFrame) → m ≤ n → Depths m es → Depths n es
Depths-mono m n [] h d = tt
Depths-mono m n (e ∷ es) h d = (omega arith, d.1)

-- What the instructions of a machine leave alone, or keep below: the size of the stack, and the
-- instructions that it may still run.
pub record Envelope : Type 0 where
  pub bound : ℕ
  pub budget : Option ℕ

-- A machine that runs: it has a frame, its handlers are in order, and its stack is within a bound
-- that is no less than its limit.
pub record Live (b : Envelope) (vm : Vm) : Type 0 where
  pub framed : 0 < length vm.frames
  pub depths : Depths (length vm.frames) vm.exceptions
  pub bounded : length vm.stack ≤ b.bound
  pub capped : vm.limits.max_stack_size ≤ b.bound
  pub paid : vm.instruction_budget ≡ b.budget

-- A method that neither aborts nor breaks the invariant.
abbrev pub Sound : Envelope → {A : Type 0} → M A → Vm → Type 0
Sound b m vm = ((m vm).0 ≢ panic) × Live b (m vm).1

pub push-Sound : {b : Envelope} → (v : Value) (vm : Vm) → Live b vm → Sound b (push v) vm
unfolding push
push-Sound v vm h = ground arith

pub pop-Sound : {b : Envelope} → (vm : Vm) → Live b vm → Sound b pop vm
unfolding pop
pop-Sound vm h = ground arith

pub pop_many-Sound : {b : Envelope} → (n : ℕ) (vm : Vm) → Live b vm → Sound b (pop_many n) vm
unfolding pop_many
pop_many-Sound n vm h = ground (arith, length-drop n vm.stack)

pub jump-Sound : {b : Envelope} → (n : ℕ) (vm : Vm) → Live b vm → Sound b (jump n) vm
unfolding jump prototype set_frame
jump-Sound n vm h = ground arith

pub load_local-Sound : {b : Envelope} → (n : ℕ) (vm : Vm) → Live b vm → Sound b (load_local n) vm
unfolding load_local push
load_local-Sound n vm h = ground arith

pub store_local-Sound : {b : Envelope} → (n : ℕ) (vm : Vm) → Live b vm → Sound b (store_local n) vm
unfolding store_local pop set_frame
store_local-Sound n vm h = ground arith

pub load_capture-Sound :
    {b : Envelope} → (n : ℕ) (vm : Vm) → Live b vm → Sound b (load_capture n) vm
unfolding load_capture push
load_capture-Sound n vm h = ground arith

pub iter_start-Sound : {b : Envelope} → (vm : Vm) → Live b vm → Sound b iter_start vm
unfolding iter_start pop set_frame
iter_start-Sound vm h = ground arith

pub iter_next-Sound : {b : Envelope} → (n : ℕ) (vm : Vm) → Live b vm → Sound b (iter_next n) vm
unfolding iter_next push set_frame jump prototype
iter_next-Sound n vm h = ground arith

pub iter_end-Sound : {b : Envelope} → (vm : Vm) → Live b vm → Sound b iter_end vm
unfolding iter_end set_frame
iter_end-Sound vm h = ground arith

pub try_begin-Sound :
    {b : Envelope} → (ip depth : ℕ) (vm : Vm) → Live b vm → Sound b (try_begin ip depth) vm
unfolding try_begin
try_begin-Sound ip depth vm h =
    ground (arith, Depths-mono (length vm.frames) (suc (length vm.frames - 1)) vm.exceptions)

Depths-drop_first : (n : ℕ) (es : List ExceptionFrame) → Depths n es → Depths n (drop_first es)
unfolding drop_first
Depths-drop_first n [] d = tt
Depths-drop_first n (e ∷ es) d = Depths-mono (suc e.frame_depth) n es d.0 d.1

pub try_end-Sound : {b : Envelope} → (vm : Vm) → Live b vm → Sound b try_end vm
unfolding try_end
try_end-Sound vm h = (
  λ e. cc,
  record {
    framed = h.framed;
    depths = Depths-drop_first (length vm.frames) vm.exceptions h.depths;
    bounded = h.bounded;
    capped = h.capped;
    paid = h.paid;
  },
)

pub make_closure-Sound :
    {b : Envelope}
    → (m : BytecodeModule) (t n : ℕ) (vm : Vm) → Live b vm
    → Sound b (make_closure m t n) vm
unfolding make_closure pop_many push
make_closure-Sound m t n vm h = ground (arith, length-drop n vm.stack)

module _ (m : BytecodeModule) (f n : ℕ) (vm : Vm) {b : Envelope} (h : Live b vm) where
  pub constant_value-Sound : Sound b (constant_value m f n) vm
  unfolding constant_value prototype
  constant_value-Sound = ground arith

  pub constant_string-Sound : Sound b (constant_string m f n) vm
  unfolding constant_string prototype
  constant_string-Sound = ground arith

  pub constant_command-Sound : Sound b (constant_command m f n) vm
  unfolding constant_command prototype
  constant_command-Sound = ground arith

pub length-unwind : (d : ℕ) (fs : List CallFrame) → length (unwind d fs) ≡ min (suc d) (length fs)
unfolding unwind
length-unwind d [] = omega arith
length-unwind d (f ∷ fs) = ground (arith, length-unwind d fs)

retain_below-eq_of_Depths :
    (m n : ℕ) (es : List ExceptionFrame) → Depths m es → m ≤ n → retain_below n es ≡ es
unfolding retain_below
retain_below-eq_of_Depths m n [] d h = refl
retain_below-eq_of_Depths m n (e ∷ es) d h =
    ground (arith, retain_below-eq_of_Depths (suc e.frame_depth) n es d.1)

-- What `Return` leaves of the handlers belongs to the frames that are left.
pub retain_below-Depths :
    (m n : ℕ) (es : List ExceptionFrame) → Depths m es → Depths n (retain_below n es)
unfolding retain_below
retain_below-Depths m n [] d = tt
retain_below-Depths m n (e ∷ es) d = ground (
  arith,
  retain_below-eq_of_Depths (suc e.frame_depth) n es d.1,
  retain_below-Depths (suc e.frame_depth) n es d.1,
)

pub unwind-Depths :
    (e : ExceptionFrame) (es : List ExceptionFrame) (fs : List CallFrame)
    → Depths (length fs) (e ∷ es)
    → Depths (length (unwind e.frame_depth fs)) es
unwind-Depths e es fs d =
    Depths-mono (suc e.frame_depth) _ es (omega (arith, length-unwind e.frame_depth fs, d.0)) d.1
