-- ===== src/Runtime/Vm/State.antt =====
-- src/runtime/vm.rs: the state of a virtual machine and its primitive methods. A `Vec` that is
-- used as a stack is a list whose head is the top. A method is a function from the machine to its
-- result and the machine that it leaves behind, on an error too.
use vim_script.Prelude.{
  ℕ, ◌-◌, Bool, Option, none, some, List, [], ◌∷◌, Text, text, ltb, leb, if◌then◌else◌, length,
  take, drop, map, reverse,
}
use vim_script.Source.{Span}
use vim_script.Bytecode.{BytecodeModule, FunctionId, FunctionPrototype, function_of}
use vim_script.Host.{HostContext, HostRequest, OptionRequest, CommandRequest}
use vim_script.Runtime.Value.{Value, FunctionRef, Values, FloatOps}
use vim_script.Runtime.Error.{
  RuntimeErrorKind, RuntimeError, StackTraceEntry, Result, ok, err, panic, runtime_code,
}

pub record IteratorState : Type 0 where
  pub values : List Value
  pub cursor : ℕ

-- What `Arc<Closure>` points to.
pub record Closure : Type 0 where
  pub address : ℕ
  pub function : FunctionRef
  pub captures : Values

pub record CallFrame : Type 0 where
  pub module_of : BytecodeModule
  pub function : FunctionId
  pub instruction_pointer : ℕ
  pub stack_base : ℕ
  pub locals : List Value
  pub closure : Option Closure
  pub iterators : List IteratorState

pub record ExceptionFrame : Type 0 where
  pub frame_depth : ℕ
  pub stack_depth : ℕ
  pub handler_ip : ℕ

pub data VmStatus : Type 0 where
  ready running : VmStatus
  suspended : (waiting_on : ℕ) → VmStatus
  completed : Value → VmStatus
  failed : RuntimeError → VmStatus

pub data StepOutcome : Type 0 where
  continue : StepOutcome
  host_call : HostRequest → StepOutcome
  option_call : OptionRequest → StepOutcome
  command_call : CommandRequest → StepOutcome
  waiting : ℕ → StepOutcome
  completed : Value → StepOutcome

pub data VmRunOutcome : Type 0 where
  yielded : VmRunOutcome
  host_call : HostRequest → VmRunOutcome
  option_call : OptionRequest → VmRunOutcome
  command_call : CommandRequest → VmRunOutcome
  waiting : ℕ → VmRunOutcome
  completed : Value → VmRunOutcome

pub record ResourceLimits : Type 0 where
  pub max_instructions : Option ℕ
  pub max_call_depth : ℕ
  pub max_stack_size : ℕ
  pub max_collection_size : ℕ
  pub max_tasks : ℕ

unfoldable pub default_limits : ResourceLimits
default_limits = record {
  max_instructions = some 10_000_000;
  max_call_depth = 256;
  max_stack_size = 65_536;
  max_collection_size = 1_000_000;
  max_tasks = 1_024;
}

-- `next_address` is the allocator's: the address of the next `Arc<Closure>`.
pub record Vm : Type 0 where
  pub module_of : BytecodeModule
  pub stack : List Value
  pub frames : List CallFrame
  pub exceptions : List ExceptionFrame
  pub globals : List (Text × Value)
  pub status : VmStatus
  pub instruction_budget : Option ℕ
  pub limits : ResourceLimits
  pub host_context : HostContext
  pub next_address : ℕ

-- What the machine calls and does not implement itself: the floats, the standard library's
-- `{:?}` of a value and of a text, the process environment, and the registry of builtin functions.
pub record Platform : Type 0 where
  pub floats : FloatOps
  pub debug : Value → Text
  pub debug_text : Text → Text
  pub env_set : Text → Bool
  pub builtin_contains : Text → Bool
  pub builtin_call : Text → List Value → Result Value

-- The last span that starts at or before `ip`, as `spans.iter().rev().find(..)` finds it.
unfoldable pub find_span : List (ℕ × Span) → ℕ → Option Span
find_span [] ip = none
find_span ((offset, span) ∷ rest) ip = elim (find_span rest ip) [
  | some s ↦ some s
  | none ↦ if leb offset ip then some span else none
]

prototype_span : Option FunctionPrototype → ℕ → Option Span
prototype_span none ip = none
prototype_span (some f) ip = find_span f.spans ip

prototype_name : Option FunctionPrototype → Option Text
prototype_name none = none
prototype_name (some f) = f.name

frame_span : CallFrame → Option Span
frame_span frame =
    prototype_span (function_of frame.module_of frame.function) (frame.instruction_pointer - 1)

trace_entry : CallFrame → StackTraceEntry
trace_entry frame = record {
  function = prototype_name (function_of frame.module_of frame.function);
  span = frame_span frame;
  instruction = frame.instruction_pointer - 1;
}

top_span : List CallFrame → Option Span
top_span [] = none
top_span (frame ∷ frames) = frame_span frame

unfoldable pub current_span : Vm → Option Span
unfolding top_span frame_span prototype_span
current_span vm = top_span vm.frames

unfoldable pub stack_trace : Vm → List StackTraceEntry
unfolding trace_entry prototype_name frame_span prototype_span
stack_trace vm = map trace_entry vm.frames

-- `Vm::error`
unfoldable pub error : Vm → RuntimeErrorKind → Text → RuntimeError
error vm kind message = record {
  code = runtime_code kind;
  kind = kind;
  message = message;
  span = current_span vm;
  stack_trace = stack_trace vm;
  notes = [];
}

abbrev pub M : Type 0 → Type 0
M A = Vm → Result A × Vm

-- `?`: an error ends the method, and the machine stays as it is then.
abbrev pub proceed : {A B : Type 0} → Result A → (A → M B) → M B
proceed (ok a) f vm = f a vm
proceed (err e) f vm = (err e, vm)
proceed panic f vm = (panic, vm)

infixl 5 ◌>>=◌ ◌>>◌
abbrev pub ◌>>=◌ : {A B : Type 0} → M A → (A → M B) → M B
◌>>=◌ m f vm = let (r, vm') = m vm in proceed r f vm'

abbrev pub ◌>>◌ : {B : Type 0} → M (Unit {0}) → M B → M B
m >> k = m >>= λ _. k

abbrev pub pure : {A : Type 0} → A → M A
pure a vm = (ok a, vm)

abbrev pub lift : {A : Type 0} → Result A → M A
lift r vm = (r, vm)

abbrev pub gets : {A : Type 0} → (Vm → A) → M A
gets f vm = (ok (f vm), vm)

abbrev pub modify : (Vm → Vm) → M (Unit {0})
modify f vm = (ok tt, f vm)

-- `Err(self.error(kind, message))`
abbrev pub raise : {A : Type 0} → RuntimeErrorKind → Text → M A
raise kind message vm = (err (error vm kind message), vm)

-- `.ok_or_else(|| self.error(kind, message))`
abbrev pub or_raise : {A : Type 0} → Option A → RuntimeErrorKind → Text → M A
or_raise (some a) kind message = pure a
or_raise none kind message = raise kind message

-- `.expect(..)`
abbrev pub expect : {A : Type 0} → Option A → M A
expect (some a) vm = (ok a, vm)
expect none vm = (panic, vm)

pop_from : List Value → M Value
pop_from [] vm = raise RuntimeErrorKind.internal (text "operand stack underflow") vm
pop_from (v ∷ rest) vm = (ok v, record vm { stack = rest })

unfoldable pub pop : M Value
unfolding pop_from
pop vm = pop_from vm.stack vm

-- The values come in the order in which they were pushed.
unfoldable pub pop_many : ℕ → M (List Value)
pop_many count vm =
    if ltb (length vm.stack) count
    then raise RuntimeErrorKind.internal (text "operand stack underflow") vm
    else (ok (reverse (take count vm.stack)), record vm { stack = drop count vm.stack })

unfoldable pub push : Value → M (Unit {0})
push v vm =
    if leb vm.limits.max_stack_size (length vm.stack)
    then raise RuntimeErrorKind.resource_limit (text "maximum operand stack size exceeded") vm
    else (ok tt, record vm { stack = v ∷ vm.stack })

-- `self.frames.last()`, `self.frames.last_mut()`
abbrev pub head? {ℓ} : {A : Type ℓ} → List A → Option A
head? [] = none
head? (x ∷ xs) = some x

with_top : CallFrame → List CallFrame → List CallFrame
with_top frame [] = []
with_top frame (old ∷ frames) = frame ∷ frames

-- Replaces the running frame.
unfoldable pub set_frame : CallFrame → M (Unit {0})
unfolding with_top
set_frame frame = modify (λ vm. record vm { frames = with_top frame vm.frames })

-- `self.frames.last().expect("frame exists")`
abbrev pub frame : M CallFrame
frame vm = expect (head? vm.frames) vm

-- `while self.frames.len() - 1 > depth { self.frames.pop(); }`
unfoldable pub unwind : ℕ → List CallFrame → List CallFrame
unwind depth [] = []
unwind depth (f ∷ fs) = if ltb depth (length fs) then unwind depth fs else f ∷ fs
