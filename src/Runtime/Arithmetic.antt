-- ===== src/Runtime/Arithmetic.antt =====
-- src/runtime/vm.rs: the operators on values. Each takes the machine for the span and the trace of
-- its errors. `checked_*` on an `i64` is the exact result where that fits.
pub mod Bounds
pub mod Indexing
pub mod Tests
use vim_script.Prelude.{
  ℕ, ◌-◌, Bool, true, false, not, ◌&&◌, ◌||◌, Option, none, some, List, [], ◌∷◌, ◌++◌, Text, text,
  if◌then◌else◌, length, get_elem?, ℤ, pos, negsuc, ◌+ℤ◌, ◌-ℤ◌, ◌*ℤ◌, neg_ℤ, quot_ℤ, rem_ℤ, eq_ℤ,
  ltb_ℤ, fits_i64, pos_part, ◌==◌, text_eq, text_lt, show_ℤ, ◌^◌,
}
use vim_script.Ast.{UnaryOperator, BinaryOperator}
use vim_script.Runtime.Value.{
  Value, Entries, end, entry, to_list, is_truthy, value_eq, type_name, Comparison, below, same,
  above, unordered, is_same,
}
use vim_script.Runtime.Error.{RuntimeErrorKind, Result, ok, err, panic, bare_error}
use vim_script.Runtime.Vm.State.{Vm, Platform, error}

unfoldable pub checked : ℤ → Option ℤ
checked n = if fits_i64 n then some n else none

unfoldable pub integer_or_overflow : Vm → Option ℤ → Result Value
integer_or_overflow vm (some n) = ok (Value.integer n)
integer_or_overflow vm none = err (error vm RuntimeErrorKind.type_error (text "integer overflow"))

-- `BTreeMap::get` and `BTreeMap::insert`
unfoldable pub dict_get : Entries → Text → Option Value
dict_get end k = none
dict_get (entry j v es) k = if text_eq j k then some v else dict_get es k

unfoldable pub dict_insert : Text → Value → Entries → Entries
dict_insert k v end = entry k v end
dict_insert k v (entry j w es) =
    if text_eq j k
    then entry k v es
    else if text_lt k j
    then entry k v (entry j w es)
    else entry j w (dict_insert k v es)

unfoldable pub dict_keys : Entries → List Value
dict_keys end = []
dict_keys (entry k v es) = Value.string k ∷ dict_keys es

unfoldable pub dictionary_key : Value → Result Text
dictionary_key (Value.string s) = ok s
dictionary_key (Value.integer n) = ok (show_ℤ n)
dictionary_key other = err (
    bare_error RuntimeErrorKind.type_error
      (text "dictionary key must be string or number, got " ++ type_name other))

-- `len` of a collection fits an `i64`.
unfoldable pub normalize_index : ℤ → ℕ → Option ℕ
normalize_index index len =
    let normalized = if ltb_ℤ index (pos 0) then pos len +ℤ index else index in
    if not (ltb_ℤ normalized (pos 0)) && ltb_ℤ normalized (pos len)
    then some (pos_part normalized)
    else none

-- A character of a text, as a text of its own.
unfoldable pub char_at : Text → Option ℕ → Option Value
char_at s none = none
char_at s (some i) = elim (get_elem? s i) [ none ↦ none | some c ↦ some (Value.string (c ∷ [])) ]

unfoldable pub value_at : List Value → Option ℕ → Option Value
value_at vs none = none
value_at vs (some i) = get_elem? vs i

unfoldable pub found_or : Option Value → Vm → RuntimeErrorKind → Text → Result Value
found_or (some v) vm kind message = ok v
found_or none vm kind message = err (error vm kind message)

module _ (p : Platform) where
  unfoldable pub get_key : Vm → Entries → Result Text → Result Value
  unfolding found_or
  get_key vm es (ok k) =
      found_or (dict_get es k) vm RuntimeErrorKind.key_error
        (text "dictionary has no key " ++ p.debug_text k)
  get_key vm es (err e) = err e
  get_key vm es panic = panic

  unfoldable pub get_index : Vm → Value → Value → Result Value
  unfolding get_key found_or
  get_index vm (Value.list vs) (Value.integer i) =
      let values = to_list vs in
      found_or (value_at values (normalize_index i (length values))) vm RuntimeErrorKind.index_error
        (text "list index out of range")
  get_index vm (Value.string s) (Value.integer i) =
      found_or (char_at s (normalize_index i (length s))) vm RuntimeErrorKind.index_error
        (text "string index out of range")
  get_index vm (Value.dictionary es) key = get_key vm es (dictionary_key key)
  get_index vm target _ =
      err (error vm RuntimeErrorKind.type_error (type_name target ++ text " cannot be indexed"))

  unfoldable pub numeric : (ℤ → ℤ → Option ℤ) → (ℕ → ℕ → ℕ) → Vm → Value → Value → Result Value
  unfolding integer_or_overflow
  numeric int flt vm (Value.integer a) (Value.integer b) = integer_or_overflow vm (int a b)
  numeric int flt vm (Value.integer a) (Value.float b) =
      ok (Value.float (flt (p.floats.of_i64 a) b))
  numeric int flt vm (Value.float a) (Value.integer b) =
      ok (Value.float (flt a (p.floats.of_i64 b)))
  numeric int flt vm (Value.float a) (Value.float b) = ok (Value.float (flt a b))
  numeric int flt vm a b = err (
      error vm RuntimeErrorKind.type_error
        (text "numeric operator cannot use " ++ (type_name a ++ (text " and " ++ type_name b))))

  -- `i64::partial_cmp` and `str::partial_cmp`
  unfoldable pub cmp_ℤ : ℤ → ℤ → Comparison
  cmp_ℤ a b = if eq_ℤ a b then same else if ltb_ℤ a b then below else above

  unfoldable pub cmp_text : Text → Text → Comparison
  cmp_text a b = if text_eq a b then same else if text_lt a b then below else above

  unfoldable pub ordering_of : Value → Value → Option Comparison
  unfolding cmp_ℤ cmp_text
  ordering_of (Value.integer a) (Value.integer b) = some (cmp_ℤ a b)
  ordering_of (Value.float a) (Value.float b) = some (p.floats.partial_cmp a b)
  ordering_of (Value.integer a) (Value.float b) = some (p.floats.partial_cmp (p.floats.of_i64 a) b)
  ordering_of (Value.float a) (Value.integer b) = some (p.floats.partial_cmp a (p.floats.of_i64 b))
  ordering_of (Value.string a) (Value.string b) = some (cmp_text a b)
  ordering_of _ _ = none

  unfoldable pub test_ordering : BinaryOperator → Comparison → Bool
  test_ordering op unordered = false
  test_ordering BinaryOperator.less below = true
  test_ordering BinaryOperator.less_equal below = true
  test_ordering BinaryOperator.less_equal same = true
  test_ordering BinaryOperator.greater above = true
  test_ordering BinaryOperator.greater_equal above = true
  test_ordering BinaryOperator.greater_equal same = true
  test_ordering _ _ = false

  unfoldable pub compare_values : Vm → BinaryOperator → Value → Value → Result Value
  unfolding ordering_of test_ordering
  compare_values vm op a b = elim (ordering_of a b) [
    | some c ↦ ok (Value.bool (test_ordering op c))
    | none ↦ err (
        error vm RuntimeErrorKind.type_error
          (text "cannot compare " ++ (type_name a ++ (text " and " ++ type_name b))))
  ]

  unfoldable pub is_zero : Value → Bool
  is_zero (Value.integer n) = eq_ℤ n (pos 0)
  is_zero (Value.float x) = is_same (p.floats.partial_cmp x (p.floats.of_i64 (pos 0)))
  is_zero _ = false

  -- `left % right` on an `i64` aborts the program where the quotient overflows.
  unfoldable pub remainder_ints : Vm → ℤ → ℤ → Result Value
  remainder_ints vm a b =
      if eq_ℤ b (pos 0)
      then err (error vm RuntimeErrorKind.division_by_zero (text "division by zero"))
      else if eq_ℤ b (negsuc 0) && eq_ℤ a (negsuc (2 ^ 63 - 1))
      then panic
      else ok (Value.integer (rem_ℤ a b))

  unfoldable pub remainder : Vm → Value → Value → Result Value
  unfolding remainder_ints
  remainder vm (Value.integer a) (Value.integer b) = remainder_ints vm a b
  remainder vm a b = err (error vm RuntimeErrorKind.type_error (text "remainder requires integers"))

  unfoldable pub display_value : Value → Text
  display_value Value.null = []
  display_value (Value.bool b) = if b then text "1" else text "0"
  display_value (Value.integer n) = show_ℤ n
  display_value (Value.float x) = p.floats.show x
  display_value (Value.string s) = s
  display_value other = p.debug other

  -- `identity` compares as `==` does: its own cases repeat those of `Value::eq`.
  unfoldable pub identity : Value → Value → Bool
  identity (Value.closure a _ _) (Value.closure b _ _) = a == b
  identity (Value.builtin a) (Value.builtin b) = text_eq a b
  identity (Value.host_function a) (Value.host_function b) = text_eq a b
  identity (Value.host_object a) (Value.host_object b) = a == b
  identity a b = value_eq p.floats a b

  unfoldable pub coalesce : Value → Value → Value
  coalesce Value.null right = right
  coalesce left right = left

  unfoldable pub unary : Vm → UnaryOperator → Value → Result Value
  unfolding integer_or_overflow checked
  unary vm UnaryOperator.not_op v = ok (Value.bool (not (is_truthy p.floats v)))
  unary vm UnaryOperator.positive (Value.integer n) = ok (Value.integer n)
  unary vm UnaryOperator.positive (Value.float x) = ok (Value.float x)
  unary vm UnaryOperator.positive other = err (
      error vm RuntimeErrorKind.type_error
        (text "unary + requires a number, got " ++ type_name other))
  unary vm UnaryOperator.negate (Value.integer n) = integer_or_overflow vm (checked (neg_ℤ n))
  unary vm UnaryOperator.negate (Value.float x) = ok (Value.float (p.floats.negated x))
  unary vm UnaryOperator.negate other = err (
      error vm RuntimeErrorKind.type_error
        (text "unary - requires a number, got " ++ type_name other))

  unfoldable pub no_pattern : Vm → Result Value
  no_pattern vm =
      err (
        error vm RuntimeErrorKind.type_error (text "pattern matching requires the regex subsystem"))

  unfoldable pub binary : Vm → BinaryOperator → Value → Value → Result Value
  binary vm BinaryOperator.add a b = numeric (λ m n. checked (m +ℤ n)) p.floats.sum vm a b
  binary vm BinaryOperator.subtract a b =
      numeric (λ m n. checked (m -ℤ n)) p.floats.difference vm a b
  binary vm BinaryOperator.multiply a b = numeric (λ m n. checked (m *ℤ n)) p.floats.product vm a b
  binary vm BinaryOperator.divide a b =
      if is_zero b
      then err (error vm RuntimeErrorKind.division_by_zero (text "division by zero"))
      else numeric (λ m n. checked (quot_ℤ m n)) p.floats.quotient vm a b
  binary vm BinaryOperator.remainder a b = remainder vm a b
  binary vm BinaryOperator.concatenate a b = ok (Value.string (display_value a ++ display_value b))
  binary vm BinaryOperator.equal a b = ok (Value.bool (value_eq p.floats a b))
  binary vm BinaryOperator.not_equal a b = ok (Value.bool (not (value_eq p.floats a b)))
  binary vm BinaryOperator.is_op a b = ok (Value.bool (identity a b))
  binary vm BinaryOperator.is_not a b = ok (Value.bool (not (identity a b)))
  binary vm BinaryOperator.less a b = compare_values vm BinaryOperator.less a b
  binary vm BinaryOperator.less_equal a b = compare_values vm BinaryOperator.less_equal a b
  binary vm BinaryOperator.greater a b = compare_values vm BinaryOperator.greater a b
  binary vm BinaryOperator.greater_equal a b = compare_values vm BinaryOperator.greater_equal a b
  binary vm BinaryOperator.logical_and a b =
      ok (Value.bool (is_truthy p.floats a && is_truthy p.floats b))
  binary vm BinaryOperator.logical_or a b =
      ok (Value.bool (is_truthy p.floats a || is_truthy p.floats b))
  binary vm BinaryOperator.coalesce a b = ok (coalesce a b)
  binary vm BinaryOperator.match_op a b = no_pattern vm
  binary vm BinaryOperator.no_match a b = no_pattern vm
