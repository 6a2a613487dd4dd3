-- ===== src/Runtime/Vm/Control.antt =====
-- src/runtime/vm.rs: calls and returns, handlers and errors fit together.
use vim_script.Prelude.{
  ℕ, suc, ◌+◌, ◌-◌, ◌<◌, ◌≤◌, ◌≡◌, refl, ap, ◌∙◌, true, false, List, [], ◌∷◌, ◌++◌, arith,
  if◌then◌else◌, length, length-append, drop, truncate, drop-append,
}
use vim_script.Runtime.Value.{Value}
use vim_script.Runtime.Error.{RuntimeError, ok}
use vim_script.Runtime.Vm.State.{
  Vm, CallFrame, ExceptionFrame, StepOutcome, Platform, push, pop, unwind,
}
use vim_script.Runtime.Vm.Calls.{
  retain_below, pop_or_null, leave_frame, return, throw_to, throw, catch_with,
  dispatch_catchable_error, error_text, is_uncatchable,
}
use vim_script.Runtime.Vm.Step.{try_begin}
use vim_script.Runtime.Vm.Safety.{Depths, Depths-mono}

truncate-append : {A : Type 0} (xs ys : List A) → truncate (length ys) (xs ++ ys) ≡ ys
truncate-append xs ys =
    ap (λ n. drop n (xs ++ ys)) (omega (arith, length-append xs ys)) ∙ drop-append xs ys

-- The handlers of a frame that returns are dropped, and those below it stay.
abbrev AllAbove : ℕ → List ExceptionFrame → Type 0
AllAbove n [] = Unit {0}
AllAbove n (e ∷ es) = (n ≤ e.frame_depth) × AllAbove n es

retain_below-Depths : (n : ℕ) (es : List ExceptionFrame) → Depths n es → retain_below n es ≡ es
unfolding retain_below
retain_below-Depths n [] d = refl
retain_below-Depths n (e ∷ es) d =
    ground (arith, retain_below-Depths n es (Depths-mono (suc e.frame_depth) n es d.0 d.1))

retain_below-append :
    (n : ℕ) (inner outer : List ExceptionFrame)
    → AllAbove n inner
    → retain_below n (inner ++ outer) ≡ retain_below n outer
unfolding retain_below
retain_below-append n [] outer h = refl
retain_below-append n (e ∷ es) outer h = ground (arith, retain_below-append n es outer h.1)

unwind-append :
    (xs : List CallFrame) (f : CallFrame) (fs : List CallFrame)
    → unwind (length fs) (xs ++ f ∷ fs) ≡ f ∷ fs
unfolding unwind
unwind-append [] f fs = ground arith
unwind-append (x ∷ xs) f fs = ground (arith, unwind-append xs f fs, length-append xs (f ∷ fs))

unwind-at :
    (n : ℕ) (xs : List CallFrame) (f : CallFrame) (fs : List CallFrame)
    → n ≡ length fs
    → unwind n (xs ++ f ∷ fs) ≡ f ∷ fs
unwind-at n xs f fs e = rw e (unwind-append xs f fs)

truncate-at : {A : Type 0} (n : ℕ) (xs ys : List A) → n ≡ length ys → truncate n (xs ++ ys) ≡ ys
truncate-at n xs ys e = rw e (truncate-append xs ys)

-- A function that was entered over the stack `below` and from the frames `callers` returns its result
-- to the caller, whatever it has left above on the stack and however many handlers
-- it has left: the caller goes on over `below` and the result, with its own handlers.
pub return-to_caller :
    (vm : Vm) (f caller : CallFrame) (callers : List CallFrame) (result : Value)
    (above below : List Value) (inner outer : List ExceptionFrame)
    → f.stack_base ≡ length below
    → AllAbove (suc (length callers)) inner
    → Depths (suc (length callers)) outer
    → length below < vm.limits.max_stack_size
    → return (record vm {
      frames = f ∷ caller ∷ callers;
      stack = result ∷ above ++ below;
      exceptions = inner ++ outer;
    })
      ≡ (
        ok StepOutcome.continue,
        record vm { stack = result ∷ below; frames = caller ∷ callers; exceptions = outer },
      )
unfolding return leave_frame pop_or_null push
return-to_caller vm f caller callers result above below inner outer eb ha ho room = rw eb (
    rw (truncate-append above below) (
      rw (retain_below-append (suc (length callers)) inner outer ha)
        (rw (retain_below-Depths (suc (length callers)) outer ho) (ground (arith, room)))))

-- A `throw` in the reach of a handler: whatever the code since `TryBegin` has left on the stack and
-- whichever functions it has called, the frame of the handler goes on at the handler, over the stack
-- of the `try` and the value that was thrown, and the handler is no longer there.
pub throw-to_handler :
    (p : Platform) (vm : Vm) (handler : ℕ) (f g : CallFrame) (fs called : List CallFrame)
    (thrown : Value) (above : List Value)
    → vm.frames ≡ f ∷ fs
    → length vm.stack < vm.limits.max_stack_size
    → throw p (record (try_begin handler 0 vm).1 {
      frames = called ++ g ∷ fs;
      stack = thrown ∷ above ++ vm.stack;
    })
      ≡ (
        ok StepOutcome.continue,
        record vm {
          stack = thrown ∷ vm.stack;
          frames = record g { instruction_pointer = handler } ∷ fs;
        },
      )
unfolding throw throw_to try_begin pop push
throw-to_handler p vm handler f g fs called thrown above ef room =
    rw (unwind-at (length vm.frames - 1) called g fs (ground (arith, ap length ef)))
      (rw (truncate-at (length vm.stack + 0) above vm.stack (omega arith)) (ground (arith, room)))

-- An error in the reach of a handler is handed to it as a text, unless it is internal, a limit that is
-- exceeded or a cancellation; those leave the machine as it is.
pub dispatch-to_handler :
    (vm : Vm) (e : RuntimeError) (handler : ℕ) (f g : CallFrame) (fs called : List CallFrame)
    (above : List Value)
    → vm.frames ≡ f ∷ fs
    → dispatch_catchable_error e
        (record (try_begin handler 0 vm).1 { frames = called ++ g ∷ fs; stack = above ++ vm.stack })
      ≡ (if is_uncatchable e.kind
          then (
            ok false,
            record (try_begin handler 0 vm).1 {
              frames = called ++ g ∷ fs;
              stack = above ++ vm.stack;
            },
          )
          else (
            ok true,
            record vm {
              stack = Value.string (error_text e) ∷ vm.stack;
              frames = record g { instruction_pointer = handler } ∷ fs;
            },
          ))
unfolding dispatch_catchable_error catch_with try_begin
dispatch-to_handler vm e handler f g fs called above ef =
    rw (unwind-at (length vm.frames - 1) called g fs (ground (arith, ap length ef)))
      (rw (truncate-at (length vm.stack + 0) above vm.stack (omega arith)) refl)
