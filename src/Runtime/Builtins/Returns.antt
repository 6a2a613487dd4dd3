-- ===== src/Runtime/Builtins/Returns.antt =====
-- src/runtime/builtins.rs: a call through the registry of the builtin functions does not index past
-- its arguments.
use vim_script.Prelude.{
  ℕ, zero, suc, ◌+ℤ◌, ◌≡◌, ◌≢◌, refl, Bool, true, false, List, [], ◌∷◌, Text, text, arith, length,
  ℤ, pos, ◌-ℤ◌, fits_i64, inl, inr,
}
use vim_script.Runtime.Value.{Value, to_list}
use vim_script.Runtime.Error.{ok, panic, Result-cases}
use vim_script.Runtime.Builtins.Numbers
use vim_script.Runtime.Builtins.Numbers.{
  checked_i64, integer_result, abs, extremum_from, extremum_of, extremum, min, max, numbers_of,
  in_range, pushed, grown, range_loop, range_values, range_between, range_of, wrap_i64,
}
use vim_script.Runtime.Builtins.Registry.{BuiltinArity, arity_takes, BuiltinSpec}

-- The call `range(end)` in a program with overflow checks, where `end - 1` overflows.
abbrev pub RangeOverflow : Bool → Text → List Value → Type 0
RangeOverflow overflow_checks name arguments =
    (overflow_checks ≡ true)
    × (name ≡ text "range")
    × ((end : ℤ) × (arguments ≡ Value.integer end ∷ []) × (fits_i64 (end -ℤ pos 1) ≡ false))

-- A function that returns on every list of arguments whose number its arity takes.
abbrev Returns : BuiltinSpec → Type 0
Returns spec =
    (arguments : List Value)
    → arity_takes spec.arity (length arguments) ≡ true
    → spec.function arguments ≢ panic

pub abs-ne-panic :
    (vs : List Value) → arity_takes (BuiltinArity.exact 1) (length vs) ≡ true → abs vs ≢ panic
unfolding abs arity_takes integer_result checked_i64
abs-ne-panic vs one = ground arith

extremum_from-ne-panic : (m : Bool) (r : ℤ) (vs : List Value) → extremum_from m r vs ≢ panic
unfolding extremum_from
extremum_from-ne-panic m r [] = ground arith
extremum_from-ne-panic m r (Value.integer n ∷ vs) = extremum_from-ne-panic m (Numbers.pick m r n) vs
extremum_from-ne-panic m r (v ∷ vs) = ground arith

extremum_of-ne-panic : (m : Bool) (vs : List Value) → extremum_of m vs ≢ panic
unfolding extremum_of
extremum_of-ne-panic m [] = ground arith
extremum_of-ne-panic m (Value.integer n ∷ vs) = extremum_from-ne-panic m n vs
extremum_of-ne-panic m (v ∷ vs) = ground arith

pub extremum-ne-panic : (v : Value) (m : Bool) → extremum v m ≢ panic
unfolding extremum
extremum-ne-panic (Value.list vs) m = extremum_of-ne-panic m (to_list vs)
extremum-ne-panic _ m = ground arith

numbers_of-ne-panic : (vs : List Value) → numbers_of vs ≢ panic
unfolding numbers_of
numbers_of-ne-panic [] = ground arith
numbers_of-ne-panic (v ∷ vs) = ground (arith, numbers_of-ne-panic vs)

range_loop-ne-panic :
    (left : ℕ) (stride end current : ℤ) → range_loop left stride end current ≢ panic
unfolding range_loop grown pushed checked_i64
range_loop-ne-panic zero stride end current = ground arith
range_loop-ne-panic (suc left) stride end current =
    ground (arith, range_loop-ne-panic left stride end (current +ℤ stride))

range_between-ne-panic : (start end stride : ℤ) → range_between start end stride ≢ panic
unfolding range_between range_values
range_between-ne-panic start end stride =
    ground (arith, range_loop-ne-panic 1_000_000 stride end start)

-- The numbers in a list of values are those of the arguments.
numbers_of-single :
    (vs : List Value) (n : ℤ) → numbers_of vs ≡ ok (n ∷ []) → vs ≡ Value.integer n ∷ []
unfolding numbers_of
numbers_of-single [] n e = cc
numbers_of-single (Value.integer m ∷ []) n e = ground arith
numbers_of-single (Value.integer m ∷ v ∷ vs) n e = ground (arith, numbers_of-ne-panic (v ∷ vs))
numbers_of-single (v ∷ vs) n e = ground arith

numbers_of-length : (vs : List Value) (ns : List ℤ) → numbers_of vs ≡ ok ns → length ns ≡ length vs
unfolding numbers_of
numbers_of-length [] ns e = ground arith
numbers_of-length (Value.integer m ∷ vs) ns e = elim (Result-cases (numbers_of vs)) [
  | inl (ms, found) ↦ ground (arith, numbers_of-length vs ms found)
  | inr (inl (x, failed)) ↦ ground (arith, failed)
  | inr (inr failed) ↦ ground (arith, failed)
]
numbers_of-length (v ∷ vs) ns e = ground arith

range_of-overflows :
    (checks : Bool) (vs : List Value) (ns : List ℤ)
    → numbers_of vs ≡ ok ns
    → arity_takes (BuiltinArity.range 1 3) (length vs) ≡ true
    → range_of checks ns ≡ panic
    → RangeOverflow checks (text "range") vs
unfolding range_of arity_takes
range_of-overflows checks vs [] found takes e = ground (arith, numbers_of-length vs [] found)
range_of-overflows checks vs (n ∷ []) found takes e = (
  ground (arith, range_between-ne-panic (pos 0) (wrap_i64 (n -ℤ pos 1)) (pos 1)),
  refl,
  (
    n,
    numbers_of-single vs n found,
    ground (arith, range_between-ne-panic (pos 0) (wrap_i64 (n -ℤ pos 1)) (pos 1)),
  ),
)
range_of-overflows checks vs (a ∷ b ∷ []) found takes e =
    absurd (range_between-ne-panic a b (pos 1) e)
range_of-overflows checks vs (a ∷ b ∷ c ∷ []) found takes e =
    absurd (range_between-ne-panic a b c e)
range_of-overflows checks vs (a ∷ b ∷ c ∷ d ∷ ns) found takes e =
    ground (arith, numbers_of-length vs (a ∷ b ∷ c ∷ d ∷ ns) found)

pub range-overflows :
    (checks : Bool) (vs : List Value)
    → arity_takes (BuiltinArity.range 1 3) (length vs) ≡ true
    → Numbers.range checks vs ≡ panic
    → RangeOverflow checks (text "range") vs
unfolding Numbers.range
range-overflows checks vs takes e = elim (Result-cases (numbers_of vs)) [
  | inl (ns, found) ↦ range_of-overflows checks vs ns found takes (rw (found, Numbers.range) at e)
  | inr (inl (x, failed)) ↦ ground (arith, failed)
  | inr (inr failed) ↦ absurd (numbers_of-ne-panic vs failed)
]
