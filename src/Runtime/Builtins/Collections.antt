-- ===== src/Runtime/Builtins/Collections.antt =====
-- src/runtime/builtins.rs: the functions on collections.
use vim_script.Prelude.{
  ℕ, suc, not, ◌&&◌, Option, none, some, List, [], ◌∷◌, ◌++◌, reverse, Text, text, if◌then◌else◌,
  length, get_elem?, ℤ, pos, ◌+ℤ◌, ltb_ℤ, pos_part, text_lt,
}
use vim_script.Runtime.Value.{Value, Entries, end, entry, to_list, of_list, is_truthy, FloatOps}
use vim_script.Runtime.Error.{Result, ok, err, panic}
use vim_script.Runtime.Arithmetic.{dict_get}
use vim_script.Runtime.Builtins.Display.{unexpected, vim_display, key_string}

unfoldable pub entry_count : Entries → ℕ
entry_count end = 0
entry_count (entry k v es) = suc (entry_count es)

-- A length fits an `i64`.
unfoldable pub value_length : List Value → Result Value
unfolding entry_count
value_length [] = panic
value_length (Value.string s ∷ _) = ok (Value.integer (pos (length s)))
value_length (Value.blob bs ∷ _) = ok (Value.integer (pos (length bs)))
value_length (Value.list vs ∷ _) = ok (Value.integer (pos (length (to_list vs))))
value_length (Value.dictionary es ∷ _) = ok (Value.integer (pos (entry_count es)))
value_length (other ∷ _) =
    err (unexpected (text "len") (text "String, Blob, List, or Dictionary") other)

unfoldable pub exists_without_vm_context : List Value → Result Value
exists_without_vm_context [] = panic
exists_without_vm_context (Value.string s ∷ _) = ok (Value.integer (pos 0))
exists_without_vm_context (other ∷ _) = err (unexpected (text "exists") (text "String") other)

unfoldable pub type_code : Value → ℕ
type_code (Value.integer n) = 0
type_code (Value.string s) = 1
type_code (Value.closure a f cs) = 2
type_code (Value.builtin n) = 2
type_code (Value.host_function n) = 2
type_code (Value.list vs) = 3
type_code (Value.dictionary es) = 4
type_code (Value.float x) = 5
type_code (Value.bool b) = 6
type_code Value.null = 7
type_code (Value.blob bs) = 10
type_code (Value.future o) = 11
type_code (Value.host_object o) = 12

unfoldable pub value_type : List Value → Result Value
unfolding type_code
value_type [] = panic
value_type (v ∷ _) = ok (Value.integer (pos (type_code v)))

unfoldable pub add : List Value → Result Value
add (Value.list vs ∷ v ∷ _) = ok (Value.list (of_list (to_list vs ++ v ∷ [])))
add (Value.list vs ∷ []) = panic
add [] = panic
add (other ∷ _) = err (unexpected (text "add") (text "List") other)

-- `normalize_index`
unfoldable pub builtin_index : ℤ → ℕ → Option ℕ
builtin_index index len =
    let from_start = if ltb_ℤ index (pos 0) then pos len +ℤ index else index in
    if not (ltb_ℤ from_start (pos 0)) && ltb_ℤ from_start (pos len)
    then some (pos_part from_start)
    else none

unfoldable pub or_default : Value → Option Value → Value
or_default default none = default
or_default default (some v) = v

unfoldable pub element_at : List Value → Option ℕ → Option Value
element_at vs none = none
element_at vs (some i) = get_elem? vs i

unfoldable pub character_at : Text → Option ℕ → Option Value
character_at s none = none
character_at s (some i) = elim (get_elem? s i) [
  | none ↦ none
  | some c ↦ some (Value.string (c ∷ []))
]

unfoldable pub get_from : Value → Value → Value → Result Value
unfolding builtin_index or_default element_at character_at
get_from (Value.list vs) (Value.integer i) default =
    let values = to_list vs in
    ok (or_default default (element_at values (builtin_index i (length values))))
get_from (Value.dictionary es) key default = elim (key_string key) [
  | ok k ↦ ok (or_default default (dict_get es k))
  | err e ↦ err e
  | panic ↦ panic
]
get_from (Value.string s) (Value.integer i) default =
    ok (or_default default (character_at s (builtin_index i (length s))))
get_from other _ default = err (unexpected (text "get") (text "List, Dictionary, or String") other)

unfoldable pub get_or_default : List Value → Result Value
unfolding get_from
get_or_default (v ∷ key ∷ []) = get_from v key Value.null
get_or_default (v ∷ key ∷ default ∷ _) = get_from v key default
get_or_default _ = panic

unfoldable pub reversed : List Value → Result Value
reversed [] = panic
reversed (Value.list vs ∷ _) = ok (Value.list (of_list (reverse (to_list vs))))
reversed (Value.string s ∷ _) = ok (Value.string (reverse s))
reversed (other ∷ _) = err (unexpected (text "reverse") (text "List or String") other)

module _ (fl : FloatOps) where
  unfoldable pub is_empty : List Value → Result Value
  is_empty [] = panic
  is_empty (v ∷ _) = ok (Value.bool (not (is_truthy fl v)))

  -- `sort_by_key(vim_display)`, which is stable: a value goes before the first one whose text is
  -- not below its own.
  unfoldable pub insert_sorted : Value → List Value → List Value
  insert_sorted v [] = v ∷ []
  insert_sorted v (w ∷ ws) =
      if text_lt (vim_display fl w) (vim_display fl v) then w ∷ insert_sorted v ws else v ∷ w ∷ ws

  unfoldable pub sort_by_display : List Value → List Value
  unfolding insert_sorted
  sort_by_display [] = []
  sort_by_display (v ∷ vs) = insert_sorted v (sort_by_display vs)

  unfoldable pub sort : List Value → Result Value
  unfolding sort_by_display
  sort [] = panic
  sort (Value.list vs ∷ _) = ok (Value.list (of_list (sort_by_display (to_list vs))))
  sort (other ∷ _) = err (unexpected (text "sort") (text "List") other)
