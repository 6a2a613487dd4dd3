-- ===== src/Runtime/Builtins/Platform.antt =====
-- src/runtime/builtins.rs, src/runtime/vm.rs: a machine whose builtin functions are those of the
-- registry, `BuiltinRegistry::with_defaults`, as `Vm::with_globals` gives it.
use vim_script.Prelude.{ℕ, suc, ◌<◌, ◌≡◌, Bool, false, some, List, Text}
use vim_script.Bytecode.{BytecodeModule}
use vim_script.Runtime.Value.{Value}
use vim_script.Runtime.Error.{Result, ok}
use vim_script.Runtime.Vm.State.{Vm, Platform}
use vim_script.Runtime.Vm.Run.{with_globals, run}
use vim_script.Runtime.Vm.Safety.Calls.{BuiltinsReturn}
use vim_script.Runtime.Vm.Safety.Ends.{run-with_globals}
use vim_script.Runtime.Builtins.Strings.{CaseMapping}
use vim_script.Runtime.Builtins.Registry.{call_builtin, contains, with_defaults}
use vim_script.Runtime.Builtins.Defaults.{call_builtin-aborts}

unfoldable pub with_builtins : CaseMapping → (overflow_checks : Bool) → Platform → Platform
with_builtins case_mapping overflow_checks p =
    let builtins = with_defaults p.floats case_mapping overflow_checks in
    record p { builtin_contains = contains builtins; builtin_call = call_builtin builtins }

module _ (case_mapping : CaseMapping) (p : Platform) where
  with_builtins-BuiltinsReturn : BuiltinsReturn (with_builtins case_mapping false p)
  unfolding with_builtins
  with_builtins-BuiltinsReturn name arguments e =
      let overflow = call_builtin-aborts p.floats case_mapping false name arguments e in
      cc overflow.0

  -- A program that is compiled without overflow checks and whose builtin functions are the default
  -- ones has a result after one round of `Vm::run`, with no assumption about the builtin functions,
  -- when its machine comes from `with_globals` and the quantum is above ten million instructions.
  pub run-with_builtins :
      (m : BytecodeModule) (globals : List (Text × Value)) (vm : Vm) (rounds quantum : ℕ)
      → with_globals m globals ≡ ok vm
      → 10_000_000 < quantum
      → (x : Result Value × Vm) × (run (with_builtins case_mapping false p) (suc rounds) quantum vm
          ≡ some x)
  run-with_builtins =
      run-with_globals (with_builtins case_mapping false p) with_builtins-BuiltinsReturn
