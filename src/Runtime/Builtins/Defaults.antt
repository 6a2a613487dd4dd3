-- ===== src/Runtime/Builtins/Defaults.antt =====
-- src/runtime/builtins.rs: a call of a builtin function through its registry returns.
use vim_script.Prelude.{
  ◌≡◌, ◌≢◌, Bool, true, false, some, List, [], ◌∷◌, Text, arith, length, lookup, insert, text_eq,
  text_eq_iff, Bool-cases, inl, inr, Option-cases, subst,
}
use vim_script.Runtime.Value.{Value, FloatOps}
use vim_script.Runtime.Error.{panic, err-ne-panic}
use vim_script.Runtime.Builtins.Numbers.{min, max}
use vim_script.Runtime.Builtins.Display.{key_string}
use vim_script.Runtime.Builtins.Collections.{
  value_length, exists_without_vm_context, value_type, add, get_from, get_or_default, reversed,
  is_empty, sort,
}
use vim_script.Runtime.Builtins.Strings.{
  CaseMapping, split, tolower, toupper, string, join, join_displayed, text_before, string_result,
  print, printf, is_conversion,
}
use vim_script.Runtime.Builtins.Registry.{
  BuiltinArity, arity_takes, BuiltinSpec, register, call_spec, call_builtin, with_defaults,
}
use vim_script.Runtime.Builtins.Returns.{
  RangeOverflow, abs-ne-panic, extremum-ne-panic, range-overflows,
}

key_string-ne-panic : (v : Value) → key_string v ≢ panic
unfolding key_string
key_string-ne-panic v = ground arith

get_from-ne-panic : (v key default : Value) → get_from v key default ≢ panic
unfolding get_from
get_from-ne-panic v key default = ground (arith, key_string-ne-panic key)

get-ne-panic :
    (vs : List Value)
    → arity_takes (BuiltinArity.range 2 3) (length vs) ≡ true
    → get_or_default vs ≢ panic
unfolding get_or_default arity_takes
get-ne-panic [] takes = ground arith
get-ne-panic (v ∷ []) takes = ground arith
get-ne-panic (v ∷ k ∷ []) takes = get_from-ne-panic v k Value.null
get-ne-panic (v ∷ k ∷ d ∷ vs) takes = get_from-ne-panic v k d

module _ (fl : FloatOps) where
  print-ne-panic : (s : Text) (vs : List Value) → print fl s vs ≢ panic
  unfolding print text_before is_conversion
  print-ne-panic [] vs = ground arith
  print-ne-panic (c ∷ []) vs = ground arith
  print-ne-panic (c ∷ d ∷ s) [] = ground (arith, print-ne-panic (d ∷ s) [], print-ne-panic s [])
  print-ne-panic (c ∷ d ∷ s) (v ∷ vs) =
      ground
        (arith, print-ne-panic (d ∷ s) (v ∷ vs), print-ne-panic s (v ∷ vs), print-ne-panic s vs)

  printf-ne-panic :
      (vs : List Value)
      → arity_takes (BuiltinArity.variadic 1) (length vs) ≡ true
      → printf fl vs ≢ panic
  unfolding printf string_result arity_takes
  printf-ne-panic [] takes = ground arith
  printf-ne-panic (Value.string s ∷ vs) takes = ground (arith, print-ne-panic s vs)
  printf-ne-panic (v ∷ vs) takes = ground arith

  join-ne-panic :
      (vs : List Value)
      → arity_takes (BuiltinArity.range 1 2) (length vs) ≡ true
      → join fl vs ≢ panic
  unfolding join join_displayed arity_takes
  join-ne-panic vs takes = ground arith

split-ne-panic :
    (vs : List Value) → arity_takes (BuiltinArity.range 1 2) (length vs) ≡ true → split vs ≢ panic
unfolding split arity_takes
split-ne-panic vs takes = ground arith

-- What a table of functions may do: abort only as `range` does.
abbrev Aborts : Bool → Text → BuiltinSpec → Type 0
Aborts checks name spec =
    (vs : List Value)
    → arity_takes spec.arity (length vs) ≡ true
    → spec.function vs ≡ panic
    → RangeOverflow checks name vs

AllAbort : Bool → List (Text × BuiltinSpec) → Type 0
AllAbort checks [] = Unit {0}
AllAbort checks ((name, spec) ∷ m) = Aborts checks name spec × AllAbort checks m

insert-AllAbort :
    (checks : Bool) (name : Text) (spec : BuiltinSpec) (m : List (Text × BuiltinSpec))
    → Aborts checks name spec
    → AllAbort checks m
    → AllAbort checks (insert name spec m)
unfolding insert AllAbort
insert-AllAbort checks name spec [] a all = (a, tt)
insert-AllAbort checks name spec ((j, w) ∷ m) a (b, rest) = elim (Bool-cases (text_eq j name)) [
  | inl e ↦ rw e (a, rest)
  | inr e ↦ rw e (b, insert-AllAbort checks name spec m a rest)
]

lookup-Aborts :
    (checks : Bool) (name : Text) (spec : BuiltinSpec) (m : List (Text × BuiltinSpec))
    → AllAbort checks m
    → lookup name m ≡ some spec
    → Aborts checks name spec
unfolding lookup AllAbort
lookup-Aborts checks name spec [] all e = cc
lookup-Aborts checks name spec ((j, w) ∷ m) (a, rest) e = elim (Bool-cases (text_eq j name)) [
  | inl same ↦
      let w' : w ≡ spec = ground (arith, same) in
      subst (λ x. Aborts checks x spec) ((text_eq_iff j name).0 same)
        (subst (λ x. Aborts checks j x) w' a)
  | inr differ ↦ lookup-Aborts checks name spec m rest (rw (differ, lookup) at e)
]

add-ne-panic :
    (vs : List Value) → arity_takes (BuiltinArity.exact 2) (length vs) ≡ true → add vs ≢ panic
unfolding add arity_takes
add-ne-panic vs takes = ground arith

value_length-ne-panic :
    (vs : List Value)
    → arity_takes (BuiltinArity.exact 1) (length vs) ≡ true
    → value_length vs ≢ panic
unfolding value_length arity_takes
value_length-ne-panic vs takes = ground arith

exists_without_vm_context-ne-panic :
    (vs : List Value)
    → arity_takes (BuiltinArity.exact 1) (length vs) ≡ true
    → exists_without_vm_context vs ≢ panic
unfolding exists_without_vm_context arity_takes
exists_without_vm_context-ne-panic vs takes = ground arith

value_type-ne-panic :
    (vs : List Value)
    → arity_takes (BuiltinArity.exact 1) (length vs) ≡ true
    → value_type vs ≢ panic
unfolding value_type arity_takes
value_type-ne-panic vs takes = ground arith

reversed-ne-panic :
    (vs : List Value) → arity_takes (BuiltinArity.exact 1) (length vs) ≡ true → reversed vs ≢ panic
unfolding reversed arity_takes
reversed-ne-panic vs takes = ground arith

min-ne-panic :
    (vs : List Value) → arity_takes (BuiltinArity.exact 1) (length vs) ≡ true → min vs ≢ panic
unfolding min arity_takes
min-ne-panic [] takes = ground arith
min-ne-panic (v ∷ vs) takes = extremum-ne-panic v true

max-ne-panic :
    (vs : List Value) → arity_takes (BuiltinArity.exact 1) (length vs) ≡ true → max vs ≢ panic
unfolding max arity_takes
max-ne-panic [] takes = ground arith
max-ne-panic (v ∷ vs) takes = extremum-ne-panic v false

module _ (fl : FloatOps) where
  is_empty-ne-panic :
      (vs : List Value)
      → arity_takes (BuiltinArity.exact 1) (length vs) ≡ true
      → is_empty fl vs ≢ panic
  unfolding is_empty arity_takes
  is_empty-ne-panic vs takes = ground arith

  sort-ne-panic :
      (vs : List Value) → arity_takes (BuiltinArity.exact 1) (length vs) ≡ true → sort fl vs ≢ panic
  unfolding sort arity_takes
  sort-ne-panic vs takes = ground arith

  string-ne-panic :
      (vs : List Value)
      → arity_takes (BuiltinArity.exact 1) (length vs) ≡ true
      → string fl vs ≢ panic
  unfolding string arity_takes
  string-ne-panic vs takes = ground arith

module _ (case_mapping : CaseMapping) where
  tolower-ne-panic :
      (vs : List Value)
      → arity_takes (BuiltinArity.exact 1) (length vs) ≡ true
      → tolower case_mapping vs ≢ panic
  unfolding tolower arity_takes
  tolower-ne-panic vs takes = ground arith

  toupper-ne-panic :
      (vs : List Value)
      → arity_takes (BuiltinArity.exact 1) (length vs) ≡ true
      → toupper case_mapping vs ≢ panic
  unfolding toupper arity_takes
  toupper-ne-panic vs takes = ground arith

module _ (fl : FloatOps) (case_mapping : CaseMapping) (checks : Bool) where
  with_defaults-AllAbort : AllAbort checks (with_defaults fl case_mapping checks).functions
  unfolding with_defaults AllAbort register insert text_eq
  with_defaults-AllAbort = (
    λ vs takes e. absurd (abs-ne-panic vs takes e),
    (
      λ vs takes e. absurd (add-ne-panic vs takes e),
      (
        λ vs takes e. absurd (is_empty-ne-panic fl vs takes e),
        (
          λ vs takes e. absurd (exists_without_vm_context-ne-panic vs takes e),
          (
            λ vs takes e. absurd (get-ne-panic vs takes e),
            (
              λ vs takes e. absurd (join-ne-panic fl vs takes e),
              (
                λ vs takes e. absurd (value_length-ne-panic vs takes e),
                (
                  λ vs takes e. absurd (max-ne-panic vs takes e),
                  (
                    λ vs takes e. absurd (min-ne-panic vs takes e),
                    (
                      λ vs takes e. absurd (printf-ne-panic fl vs takes e),
                      (
                        range-overflows checks,
                        (
                          λ vs takes e. absurd (reversed-ne-panic vs takes e),
                          (
                            λ vs takes e. absurd (sort-ne-panic fl vs takes e),
                            (
                              λ vs takes e. absurd (split-ne-panic vs takes e),
                              (
                                λ vs takes e. absurd (string-ne-panic fl vs takes e),
                                (
                                  λ vs takes e. absurd (tolower-ne-panic case_mapping vs takes e),
                                  (
                                    λ vs takes e. absurd (toupper-ne-panic case_mapping vs takes e),
                                    (λ vs takes e. absurd (value_type-ne-panic vs takes e), tt),
                                  ),
                                ),
                              ),
                            ),
                          ),
                        ),
                      ),
                    ),
                  ),
                ),
              ),
            ),
          ),
        ),
      ),
    ),
  )

  -- A call through the registry of the builtin functions aborts the program only where `range` of
  -- one argument subtracts 1 from it, the difference does not fit an `i64`, and the program is
  -- compiled with overflow checks; whatever the name and the arguments.
  pub call_builtin-aborts :
      (name : Text) (vs : List Value)
      → call_builtin (with_defaults fl case_mapping checks) name vs ≡ panic
      → RangeOverflow checks name vs
  unfolding call_builtin call_spec
  call_builtin-aborts name vs e =
      elim (Option-cases (lookup name (with_defaults fl case_mapping checks).functions)) [
        | inl missing ↦ absurd (err-ne-panic (rw (missing, call_builtin, call_spec) at e))
        | inr (spec, found) ↦ elim (Bool-cases (arity_takes spec.arity (length vs))) [
          | inl takes ↦
              lookup-Aborts checks name spec (with_defaults fl case_mapping checks).functions
                with_defaults-AllAbort found vs takes
                (rw (takes, call_spec) at (rw (found, call_builtin) at e))
          | inr refuses ↦
              absurd (err-ne-panic (rw (refuses, call_spec) at (rw (found, call_builtin) at e)))
        ]
      ]
