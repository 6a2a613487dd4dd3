-- ===== src/Runtime/Builtins/Ranges.antt =====
-- src/runtime/builtins.rs: range.
use vim_script.Prelude.{
  ℕ, zero, suc, ◌≤◌, ◌≡◌, refl, sym, ◌∙◌, ◌||◌, ltb_ℤ, negsuc, Bool, true, false, Option, none,
  some, List, [], ◌∷◌, map, text, arith, ℤ, pos, ◌+ℤ◌, +ℤ_parts, eq_ℤ, length, get_elem?,
  if◌then◌else◌, Bool-cases, inl, inr,
}
use vim_script.Runtime.Value.{Value, of_list}
use vim_script.Runtime.Error.{Result, ok, err, panic, Result-cases, err-ne-ok}
use vim_script.Runtime.Builtins.Display.{typed_error}
use vim_script.Runtime.Builtins.Numbers
use vim_script.Runtime.Builtins.Numbers.{
  checked_i64, numbers_of, in_range, pushed, grown, range_loop, range_values, range_between,
  range_of,
}

-- The number that stands `i` strides after another.
unfoldable pub term : (stride current : ℤ) → ℕ → ℤ
term stride current zero = current
term stride current (suc i) = term stride (current +ℤ stride) i

-- A number that is out of range has only such numbers after it.
in_range-next :
    (stride end current : ℤ)
    → eq_ℤ stride (pos 0) ≡ false
    → in_range stride end current ≡ false
    → in_range stride end (current +ℤ stride) ≡ false
unfolding in_range
in_range-next stride end current nonzero out = ground (arith, +ℤ_parts current stride)

in_range-term :
    (stride end current : ℤ) (i : ℕ)
    → eq_ℤ stride (pos 0) ≡ false
    → in_range stride end current ≡ false
    → in_range stride end (term stride current i) ≡ false
unfolding term
in_range-term stride end current zero nonzero out = out
in_range-term stride end current (suc i) nonzero out =
    in_range-term stride end (current +ℤ stride) i nonzero
      (in_range-next stride end current nonzero out)

grown-ok :
    (current next : ℤ) (r : Result (List ℤ)) (ns : List ℤ)
    → grown current next r ≡ ok ns
    → (ms : List ℤ) × (r ≡ ok ms) × (ns ≡ current ∷ ms)
unfolding grown pushed checked_i64
grown-ok current next (ok ms) ns e = (ms, refl, ground arith)
grown-ok current next (err x) ns e = ground arith
grown-ok current next panic ns e = ground arith

-- Whether a number is not past the end, which counts as well: going up by a positive stride, and
-- going down by a negative one.
abbrev pub reaches : (stride end : ℤ) → ℤ → Bool
reaches (pos n) end m = ltb_ℤ m end || eq_ℤ m end
reaches (negsuc n) end m = ltb_ℤ end m || eq_ℤ m end

unfoldable pub element : (stride end current : ℤ) (i : ℕ) → Option ℤ
element stride end current i =
    if reaches stride end (term stride current i) then some (term stride current i) else none

in_range-reaches :
    (stride end m : ℤ) → eq_ℤ stride (pos 0) ≡ false → in_range stride end m ≡ reaches stride end m
unfolding in_range
in_range-reaches (pos n) end m nonzero = ground (arith, nonzero)
in_range-reaches (negsuc n) end m nonzero = ground arith

cons-element :
    (stride end current : ℤ) (ns ms : List ℤ)
    → reaches stride end current ≡ true
    → ns ≡ current ∷ ms
    → ((i : ℕ) → get_elem? ms i ≡ element stride end (current +ℤ stride) i)
    → (i : ℕ) → get_elem? ns i ≡ element stride end current i
unfolding element term
cons-element stride end current ns ms inside e at zero = rw (e, inside) refl
cons-element stride end current ns ms inside e at (suc i) = rw e (at i)

outside-element :
    (stride end current : ℤ)
    → eq_ℤ stride (pos 0) ≡ false
    → in_range stride end current ≡ false
    → (ns : List ℤ) → ◌≡◌ {A = Result (List ℤ)} (ok []) (ok ns)
    → (length ns ≡ 0) × ((i : ℕ) → get_elem? ns i ≡ element stride end current i)
unfolding element
outside-element stride end current nonzero out [] e = (
  refl,
  λ i.
      rw
        (sym (in_range-reaches stride end (term stride current i) nonzero)
          ∙ in_range-term stride end current i nonzero out)
        refl,
)
outside-element stride end current nonzero out (n ∷ ns) e = cc

-- The list of a loop that returns: its length, and its elements.
range_loop-element :
    (left : ℕ) (stride end current : ℤ) (ns : List ℤ)
    → eq_ℤ stride (pos 0) ≡ false
    → range_loop left stride end current ≡ ok ns
    → (length ns ≤ left) × ((i : ℕ) → get_elem? ns i ≡ element stride end current i)
unfolding range_loop
range_loop-element zero stride end current ns nonzero e =
    elim (Bool-cases (in_range stride end current)) [
      | inr out ↦
          let (n, at) =
            outside-element stride end current nonzero out ns (rw (out, range_loop) at e) in
          (omega (arith, n), at)
      | inl inside ↦
          let (ms, rest, whole) =
            grown-ok current (current +ℤ stride)
              (err (typed_error (text "E1240") (text "result is too large"))) ns
              (rw (inside, range_loop) at e) in
          absurd (err-ne-ok rest)
    ]
range_loop-element (suc left) stride end current ns nonzero e =
    elim (Bool-cases (in_range stride end current)) [
      | inr out ↦
          let (n, at) =
            outside-element stride end current nonzero out ns (rw (out, range_loop) at e) in
          (omega (arith, n), at)
      | inl inside ↦
          let (ms, rest, whole) =
            grown-ok current (current +ℤ stride) (range_loop left stride end (current +ℤ stride)) ns
              (rw (inside, range_loop) at e) in
          let (n, at) = range_loop-element left stride end (current +ℤ stride) ms nonzero rest in
          (
            rw whole (omega (arith, n)),
            cons-element stride end current ns ms
                (sym (in_range-reaches stride end current nonzero) ∙ inside) whole at,
          )
    ]

range_between-element :
    (start end stride : ℤ) (v : Value)
    → range_between start end stride ≡ ok v
    → (ns : List ℤ) × (v ≡ Value.list (of_list (map Value.integer ns)))
      × (length ns ≤ 1_000_000)
      × ((i : ℕ) → get_elem? ns i ≡ element stride end start i)
unfolding range_between range_values
range_between-element start end stride v e = elim (Bool-cases (eq_ℤ stride (pos 0))) [
  | inl still ↦ absurd (err-ne-ok (rw (still, range_between) at e))
  | inr nonzero ↦ elim (Result-cases (range_loop 1_000_000 stride end start)) [
    | inl (ns, found) ↦
        let (n, at) = range_loop-element 1_000_000 stride end start ns nonzero found in
        (ns, ground (arith, found, nonzero), n, at)
    | inr (inl (x, failed)) ↦ ground (arith, failed, nonzero)
    | inr (inr failed) ↦ ground (arith, failed, nonzero)
  ]
]

-- A call of `range` with a start, an end and a stride that returns gives a list of at most a million
-- numbers: at each index the number that stands so many strides after the start, when it is not past the end,
-- which is in the list where a stride meets it, and nothing from the first number on that is past the end.
pub range-element :
    (overflow_checks : Bool) (start end stride : ℤ) (v : Value)
    → Numbers.range overflow_checks
        (Value.integer start ∷ Value.integer end ∷ Value.integer stride ∷ [])
      ≡ ok v
    → (ns : List ℤ) × (v ≡ Value.list (of_list (map Value.integer ns)))
      × (length ns ≤ 1_000_000)
      × ((i : ℕ) → get_elem? ns i ≡ element stride end start i)
unfolding Numbers.range range_of numbers_of
range-element overflow_checks start end stride v e = range_between-element start end stride v e
