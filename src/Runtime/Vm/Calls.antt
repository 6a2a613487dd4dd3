-- ===== src/Runtime/Vm/Calls.antt =====
-- src/runtime/vm.rs: calls, returns and the two ways into an exception handler.
use vim_script.Prelude.{
  ℕ, suc, ◌-◌, Bool, true, false, not, ◌&&◌, ◌||◌, Option, none, some, List, [], ◌∷◌, ◌++◌, Text,
  text, ltb, leb, if◌then◌else◌, length, set, replicate, truncate, text_eq, show_ℕ,
}
use vim_script.Bytecode.{FunctionPrototype}
use vim_script.Host.{HostRequest, HostTarget}
use vim_script.Runtime.Value.{Value, type_name}
use vim_script.Runtime.Error.{RuntimeErrorKind, RuntimeError, Result, ok, err, panic}
use vim_script.Runtime.Vm.State.{
  Vm, CallFrame, ExceptionFrame, StepOutcome, Closure, Platform, M, ◌>>=◌, ◌>>◌, pure, gets, raise,
  modify, current_span, stack_trace, pop, pop_many, push, unwind,
}
use vim_script.Runtime.Vm.Lookups.{prototype, builtin_exists}

-- `for (index, argument) in arguments.into_iter().enumerate()`: an argument without a slot is lost.
unfoldable pub place_arguments : ℕ → List Value → List Value → List Value
place_arguments index [] locals = locals
place_arguments index (a ∷ arguments) locals =
    place_arguments (suc index) arguments (set locals index a)

unfoldable pub accepts : FunctionPrototype → ℕ → Bool
accepts f argc =
    not (ltb argc (f.arity - f.optional_parameters)) && (f.variadic || not (ltb f.arity argc))

unfoldable pub callee_frame : FunctionPrototype → Closure → ℕ → List Value → CallFrame
callee_frame f c base arguments = record {
  module_of = c.function.module_of;
  function = c.function.id;
  instruction_pointer = 0;
  stack_base = base;
  locals = place_arguments 0 arguments (replicate f.local_count Value.null);
  closure = some c;
  iterators = [];
}

-- The call of a closure, past the depth test and with its arguments popped.
unfoldable pub call_closure : ℕ → Closure → List Value → M (Option HostRequest)
call_closure argc c arguments = do
  f ← prototype c.function.module_of c.function.id
  if accepts f argc
      then modify
          (λ vm. record vm { frames = callee_frame f c (length vm.stack) arguments ∷ vm.frames })
        >> pure none
      else raise RuntimeErrorKind.arity_error (
          text "expected "
          ++ (show_ℕ (f.arity - f.optional_parameters)
              ++ (text "..=" ++ (show_ℕ f.arity ++ (text " arguments, got " ++ show_ℕ argc)))))

located : {A : Type 0} → Vm → Result A → Result A
located vm (err e) = err (record e { span = current_span vm; stack_trace = stack_trace vm })
located vm r = r

module _ (p : Platform) where
  builtin_result : Vm → Text → List Value → Result Value
  builtin_result vm name arguments =
      if text_eq name (text "exists")
      then builtin_exists p vm arguments
      else p.builtin_call name arguments

  call_builtin : Text → List Value → M (Option HostRequest)
  unfolding located builtin_result
  call_builtin name arguments = do
    result ← λ vm. (located vm (builtin_result vm name arguments), vm)
    push result
    pure none

  -- A call by the kind of the callee.
  unfoldable pub call_value : ℕ → List Value → Value → M (Option HostRequest)
  unfolding call_builtin
  call_value argc arguments (Value.builtin name) = call_builtin name arguments
  call_value argc arguments (Value.host_function name) = gets λ vm. some (record {
    target = HostTarget.global;
    function = name;
    arguments = arguments;
    context = vm.host_context;
  })
  call_value argc arguments (Value.closure address f captures) =
      call_closure argc (record { address = address; function = f; captures = captures }) arguments
  call_value argc arguments callee =
      raise RuntimeErrorKind.type_error (type_name callee ++ text " is not callable")

  unfoldable pub call : ℕ → M (Option HostRequest)
  call argc = do
    vm ← gets (λ vm. vm)
    if leb vm.limits.max_call_depth (length vm.frames)
        then raise RuntimeErrorKind.resource_limit (text "maximum call depth exceeded")
        else do arguments ← pop_many argc; callee ← pop; call_value argc arguments callee

-- `self.exceptions.retain(|exception| exception.frame_depth < self.frames.len())`
unfoldable pub retain_below : ℕ → List ExceptionFrame → List ExceptionFrame
retain_below depth [] = []
retain_below depth (e ∷ es) =
    if ltb e.frame_depth depth then e ∷ retain_below depth es else retain_below depth es

-- `self.pop().unwrap_or(Value::Null)`
unfoldable pub pop_or_null : List Value → Value × List Value
pop_or_null [] = (Value.null, [])
pop_or_null (v ∷ rest) = (v, rest)

resume_caller : Value → List CallFrame → M StepOutcome
resume_caller value [] = pure (StepOutcome.completed value)
resume_caller value (f ∷ fs) = do push value; pure StepOutcome.continue

unfoldable pub leave_frame : List CallFrame → M StepOutcome
unfolding resume_caller pop_or_null
leave_frame [] vm = (panic, vm)
leave_frame (f ∷ fs) vm =
    let (value, rest) = pop_or_null vm.stack in
    resume_caller value fs (record vm {
      stack = truncate f.stack_base rest;
      frames = fs;
      exceptions = retain_below (length fs) vm.exceptions;
    })

unfoldable pub return : M StepOutcome
unfolding leave_frame
return vm = leave_frame vm.frames vm

-- The running frame goes on at the handler.
enter_handler : ℕ → List CallFrame → M (Unit {0})
enter_handler ip [] vm = (panic, vm)
enter_handler ip (f ∷ fs) vm =
    (ok tt, record vm { frames = record f { instruction_pointer = ip } ∷ fs })

module _ (p : Platform) where
  unfoldable pub throw_to : Value → List ExceptionFrame → M StepOutcome
  unfolding enter_handler
  throw_to thrown [] =
      raise (RuntimeErrorKind.user_thrown thrown) (text "uncaught exception: " ++ p.debug thrown)
  throw_to thrown (e ∷ rest) = do
    modify λ vm. record vm {
      exceptions = rest;
      frames = unwind e.frame_depth vm.frames;
      stack = truncate e.stack_depth vm.stack;
    }
    push thrown
    λ vm. enter_handler e.handler_ip vm.frames vm
    pure StepOutcome.continue

  unfoldable pub throw : M StepOutcome
  unfolding throw_to
  throw = do thrown ← pop; λ vm. throw_to thrown vm.exceptions vm

unfoldable pub is_uncatchable : RuntimeErrorKind → Bool
is_uncatchable RuntimeErrorKind.internal = true
is_uncatchable RuntimeErrorKind.resource_limit = true
is_uncatchable RuntimeErrorKind.cancelled = true
is_uncatchable _ = false

-- The text that a handler finds on the stack.
unfoldable pub error_text : RuntimeError → Text
error_text e = elim e.code [ none ↦ e.message | some code ↦ code ++ (text ": " ++ e.message) ]

-- The error's text is put on the stack without the test of `push`.
resume_at : ExceptionFrame → RuntimeError → List CallFrame → M Bool
resume_at ex e [] vm = (ok false, vm)
resume_at ex e (f ∷ fs) vm = (
  ok true,
  record vm {
    stack = Value.string (error_text e) ∷ truncate ex.stack_depth vm.stack;
    frames = record f { instruction_pointer = ex.handler_ip } ∷ fs;
  },
)

unfoldable pub catch_with : RuntimeError → List ExceptionFrame → M Bool
unfolding resume_at
catch_with e [] vm = (ok false, vm)
catch_with e (ex ∷ rest) vm =
    let frames = unwind ex.frame_depth vm.frames in
    resume_at ex e frames (record vm { exceptions = rest; frames = frames })

unfoldable pub dispatch_catchable_error : RuntimeError → M Bool
unfolding catch_with
dispatch_catchable_error e vm =
    if is_uncatchable e.kind then (ok false, vm) else catch_with e vm.exceptions vm
