-- ===== src/Runtime/Builtins/Numbers.antt =====
-- src/runtime/builtins.rs: abs, min, max and range. `overflow_checks` says how the program was
-- compiled: `-` on an `i64` aborts where it overflows, or else wraps around.
use vim_script.Prelude.{
  ℕ, zero, suc, ◌%◌, ◌^◌, Bool, true, false, ◌&&◌, List, [], ◌∷◌, text, if◌then◌else◌, ℤ, map, pos,
  ◌+ℤ◌, ◌-ℤ◌, neg_ℤ, is_negative, eq_ℤ, ltb_ℤ, fits_i64, not,
}
use vim_script.Runtime.Value.{Value, to_list, of_list}
use vim_script.Runtime.Error.{Result, ok, err, panic}
use vim_script.Runtime.Builtins.Display.{typed_error, unexpected}

unfoldable pub checked_i64 : ℤ → Result ℤ
checked_i64 n =
    if fits_i64 n then ok n else err (typed_error (text "E805") (text "integer overflow"))

unfoldable pub integer_result : Result ℤ → Result Value
integer_result (ok n) = ok (Value.integer n)
integer_result (err e) = err e
integer_result panic = panic

-- `f64::abs` clears the sign bit.
unfoldable pub abs : List Value → Result Value
unfolding integer_result
abs [] = panic
abs (Value.integer n ∷ _) = integer_result (checked_i64 (if is_negative n then neg_ℤ n else n))
abs (Value.float x ∷ _) = ok (Value.float (x % 2 ^ 63))
abs (other ∷ _) = err (unexpected (text "abs") (text "Number or Float") other)

unfoldable pub extremum_name : Bool → List ℕ
extremum_name minimum = if minimum then text "min" else text "max"

unfoldable pub pick : Bool → ℤ → ℤ → ℤ
pick true a b = if ltb_ℤ b a then b else a
pick false a b = if ltb_ℤ b a then a else b

-- The loop over the numbers after the first.
unfoldable pub extremum_from : Bool → ℤ → List Value → Result Value
extremum_from minimum result [] = ok (Value.integer result)
extremum_from minimum result (Value.integer n ∷ vs) =
    extremum_from minimum (pick minimum result n) vs
extremum_from minimum result (other ∷ vs) =
    err (unexpected (extremum_name minimum) (text "List of Numbers") other)

unfoldable pub extremum_of : Bool → List Value → Result Value
unfolding extremum_from
extremum_of minimum [] = ok (Value.integer (pos 0))
extremum_of minimum (Value.integer n ∷ vs) = extremum_from minimum n vs
extremum_of minimum (other ∷ vs) =
    err (unexpected (extremum_name minimum) (text "List of Numbers") other)

unfoldable pub extremum : Value → Bool → Result Value
unfolding extremum_of
extremum (Value.list vs) minimum = extremum_of minimum (to_list vs)
extremum other minimum = err (unexpected (extremum_name minimum) (text "List") other)

unfoldable pub min : List Value → Result Value
min [] = panic
min (v ∷ _) = extremum v true

unfoldable pub max : List Value → Result Value
max [] = panic
max (v ∷ _) = extremum v false

unfoldable pub numbers_of : List Value → Result (List ℤ)
numbers_of [] = ok []
numbers_of (Value.integer n ∷ vs) = elim (numbers_of vs) [
  | ok ns ↦ ok (n ∷ ns)
  | err e ↦ err e
  | panic ↦ panic
]
numbers_of (other ∷ vs) = err (unexpected (text "range") (text "Number") other)

unfoldable pub in_range : (stride end current : ℤ) → Bool
in_range stride end current =
    if ltb_ℤ (pos 0) stride then not (ltb_ℤ end current) else not (ltb_ℤ current end)

unfoldable pub pushed : ℤ → Result (List ℤ) → Result (List ℤ)
pushed n (ok ns) = ok (n ∷ ns)
pushed n (err e) = err e
pushed n panic = panic

-- After a push: `next` is the checked sum.
unfoldable pub grown : (current next : ℤ) → Result (List ℤ) → Result (List ℤ)
unfolding pushed checked_i64
grown current next rest = elim (checked_i64 next) [
  | ok n ↦ pushed current rest
  | err e ↦ err e
  | panic ↦ panic
]

-- The loop, where `left` numbers may be pushed before one too many is.
unfoldable pub range_loop : (left : ℕ) (stride end current : ℤ) → Result (List ℤ)
unfolding grown in_range
range_loop zero stride end current =
    if in_range stride end current
    then grown current (current +ℤ stride)
        (err (typed_error (text "E1240") (text "result is too large")))
    else ok []
range_loop (suc left) stride end current =
    let rest = range_loop left stride end (current +ℤ stride) in
    if in_range stride end current then grown current (current +ℤ stride) rest else ok []

unfoldable pub range_values : Result (List ℤ) → Result Value
range_values (ok ns) = ok (Value.list (of_list (map Value.integer ns)))
range_values (err e) = err e
range_values panic = panic

unfoldable pub range_between : (start end stride : ℤ) → Result Value
unfolding range_values
range_between start end stride =
    if eq_ℤ stride (pos 0)
    then err (typed_error (text "E726") (text "stride is zero"))
    else range_values (range_loop 1_000_000 stride end start)

-- The value of an `i64` operation that went past an end of the type once.
unfoldable pub wrap_i64 : ℤ → ℤ
wrap_i64 n =
    if fits_i64 n then n else if is_negative n then n +ℤ pos (2 ^ 64) else n -ℤ pos (2 ^ 64)

unfoldable pub range_of : (overflow_checks : Bool) → List ℤ → Result Value
unfolding range_between wrap_i64
range_of overflow_checks (end ∷ []) =
    let last = end -ℤ pos 1 in
    if overflow_checks && not (fits_i64 last)
    then panic
    else range_between (pos 0) (wrap_i64 last) (pos 1)
range_of overflow_checks (start ∷ end ∷ []) = range_between start end (pos 1)
range_of overflow_checks (start ∷ end ∷ stride ∷ []) = range_between start end stride
range_of overflow_checks _ = panic

unfoldable pub range : (overflow_checks : Bool) → List Value → Result Value
unfolding range_of
range overflow_checks arguments = elim (numbers_of arguments) [
  | ok ns ↦ range_of overflow_checks ns
  | err e ↦ err e
  | panic ↦ panic
]
