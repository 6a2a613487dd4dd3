-- ===== src/Runtime/Builtins/Tests.antt =====
-- src/runtime/builtins.rs: calls of builtin functions, and the theorems at concrete inputs.
use vim_script.Prelude.{
  ℕ, ◌-◌, ◌^◌, ◌≡◌, ◌≤◌, refl, true, false, some, List, [], ◌∷◌, arith, text, Text, ℤ, pos, negsuc,
  length, get_elem?, lookup, insert, text_eq, ◌+ℤ◌, ◌-ℤ◌,
}
use vim_script.Runtime.Value.{Value, Values, of_list, to_list}
use vim_script.Runtime.Error.{Result, ok, panic}
use vim_script.Runtime.Vm.State.{Vm}
use vim_script.Runtime.Vm.Run.{run}
use vim_script.Runtime.Vm.Tests.{plain, module_with, adding, adding_vm, adding_starts}
use vim_script.Runtime.Builtins.Numbers
use vim_script.Runtime.Builtins.Numbers.{
  extremum, range_of, range_between, range_values, range_loop, numbers_of, wrap_i64,
}
use vim_script.Runtime.Builtins.Collections.{sort}
use vim_script.Runtime.Builtins.Strings.{CaseMapping, split, join, text_list}
use vim_script.Runtime.Builtins.Registry.{
  call_builtin, call_spec, with_defaults, register, arity_takes,
}
use vim_script.Runtime.Builtins.Returns.{RangeOverflow}
use vim_script.Runtime.Builtins.Defaults.{call_builtin-aborts}
use vim_script.Runtime.Builtins.Platform.{with_builtins, run-with_builtins}
use vim_script.Runtime.Builtins.Sorting.{InOrder, displayed_as, sort-InOrder}
use vim_script.Runtime.Builtins.Splitting.{AllFree, join-split}
use vim_script.Runtime.Builtins.Extrema.{integers}
use vim_script.Runtime.Builtins.Ranges.{element, range-element}

abbrev no_mapping : CaseMapping
no_mapping = record { to_lowercase = λ s. s; to_uppercase = λ s. s }

abbrev least : Value
least = Value.integer (negsuc (2 ^ 63 - 1))

-- `range` of the least integer, in a program with overflow checks.
least_range-panic :
    call_builtin (with_defaults plain.floats no_mapping true) (text "range") (least ∷ []) ≡ panic
unfolding call_builtin call_spec with_defaults register insert lookup text_eq arity_takes
    Numbers.range range_of numbers_of ◌-ℤ◌
least_range-panic = refl

call_builtin-aborts_example : RangeOverflow true (text "range") (least ∷ [])
call_builtin-aborts_example =
    call_builtin-aborts plain.floats no_mapping true (text "range") (least ∷ []) least_range-panic

words : Values
words = of_list (Value.string (text "pear") ∷ Value.string (text "fig") ∷ [])

sort-InOrder_example :
    (ws : Values) × (sort plain.floats (Value.list words ∷ []) ≡ ok (Value.list ws))
    × InOrder plain.floats (to_list ws)
    × ((s : Text)
        → displayed_as plain.floats s (to_list ws) ≡ displayed_as plain.floats s (to_list words))
sort-InOrder_example = sort-InOrder plain.floats words []

join-split_example :
    (parts : List Text) × (split (Value.string (text "a, b") ∷ Value.string (text ", ") ∷ [])
      ≡ ok (text_list parts))
    × AllFree (text ", ") parts
    × (join plain.floats (text_list parts ∷ Value.string (text ", ") ∷ [])
        ≡ ok (Value.string (text "a, b")))
join-split_example = join-split b',' (text " ") plain.floats (text "a, b") [] []

odd_range :
    Numbers.range false (Value.integer (pos 1) ∷ Value.integer (pos 6) ∷ Value.integer (pos 2) ∷ [])
    ≡ ok (integers (pos 1 ∷ pos 3 ∷ pos 5 ∷ []))
unfolding Numbers.range numbers_of range_of range_between range_values range_loop ◌+ℤ◌ of_list
odd_range = refl

range-element_example :
    (ns : List ℤ) × (integers (pos 1 ∷ pos 3 ∷ pos 5 ∷ []) ≡ integers ns)
    × (length ns ≤ 1_000_000)
    × ((i : ℕ) → get_elem? ns i ≡ element (pos 2) (pos 6) (pos 1) i)
range-element_example =
    range-element false (pos 1) (pos 6) (pos 2) (integers (pos 1 ∷ pos 3 ∷ pos 5 ∷ [])) odd_range

run-with_builtins_example :
    (x : Result Value × Vm) × (run (with_builtins no_mapping false plain) 1 10_000_001 adding_vm
      ≡ some x)
run-with_builtins_example =
    run-with_builtins no_mapping plain (module_with (adding ∷ [])) [] adding_vm 0 10_000_001
      adding_starts (omega arith)
