-- ===== src/Runtime/Arithmetic/Tests.antt =====
-- src/runtime/vm.rs: the operators and dictionaries at concrete inputs.
use vim_script.Prelude.{ℕ, ◌≡◌, ◌⊎◌, true, false, some, text, pos, negsuc, get_elem?}
use vim_script.Runtime.Value.{Value, Values, nil, cons, to_list}
use vim_script.Runtime.Error.{RuntimeErrorKind, ok, err}
use vim_script.Runtime.Vm.State.{error}
use vim_script.Runtime.Vm.Tests.{plain, adding_vm}
use vim_script.Runtime.Arithmetic.{get_index}
use vim_script.Runtime.Arithmetic.Indexing.{names_index, get_index-names}

abbrev pair : Values
pair = cons (Value.integer (pos 7)) (cons Value.null nil)

get_index-names_example :
    ((k : ℕ) × (v : Value) × (names_index (negsuc 1) 2 k ≡ true)
      × (get_elem? (to_list pair) k ≡ some v)
      × (get_index plain adding_vm (Value.list pair) (Value.integer (negsuc 1)) ≡ ok v))
    ⊎ (((k : ℕ) → names_index (negsuc 1) 2 k ≡ false)
        × (get_index plain adding_vm (Value.list pair) (Value.integer (negsuc 1))
            ≡ err (error adding_vm RuntimeErrorKind.index_error (text "list index out of range"))))
unfolding to_list
get_index-names_example = get_index-names plain adding_vm pair (negsuc 1)
