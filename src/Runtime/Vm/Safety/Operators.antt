-- ===== src/Runtime/Vm/Safety/Operators.antt =====
-- src/runtime/vm.rs: which operators abort the program.
use vim_script.Prelude.{
  ℕ, ◌-◌, ◌≡◌, ◌≢◌, refl, ap, Option, List, [], ◌∷◌, arith, ℤ, quot_ℤ, negsuc, ◌^◌,
}
use vim_script.Ast.{UnaryOperator, BinaryOperator}
use vim_script.Bytecode.{Instruction}
use vim_script.Runtime.Value.{Value}
use vim_script.Runtime.Error.{panic}
use vim_script.Runtime.Arithmetic.{
  unary, binary, get_index, dictionary_key, remainder, remainder_ints, checked, no_pattern, numeric,
  compare_values,
}
use vim_script.Runtime.Vm.State.{Vm, Platform, push, pop}
use vim_script.Runtime.Vm.Lookups.{global_value}
use vim_script.Runtime.Vm.Step.{binary_instruction}
use vim_script.Runtime.Vm.Safety.{Envelope, Live, Sound}

module _ (p : Platform) where
  pub unary-ne-panic : (op : UnaryOperator) (v : Value) (vm : Vm) → unary p vm op v ≢ panic
  unfolding unary
  unary-ne-panic op v vm = ground arith

  pub get_index-ne-panic : (t i : Value) (vm : Vm) → get_index p vm t i ≢ panic
  unfolding get_index dictionary_key
  get_index-ne-panic t i vm = ground arith

  pub global_value-Sound :
      {b : Envelope} → (name : List ℕ) (vm : Vm) → Live b vm → Sound b (global_value p name) vm
  unfolding global_value
  global_value-Sound name vm h = ground arith

abbrev pub i64_min : ℤ
i64_min = negsuc (2 ^ 63 - 1)

-- The operands of the one operation that the processor refuses.
abbrev pub Overflows : BinaryOperator → Value → Value → Type 0
Overflows op left right =
    (op ≡ BinaryOperator.remainder)
    × (left ≡ Value.integer i64_min)
    × (right ≡ Value.integer (negsuc 0))

module _ (p : Platform) where
  pub remainder_ints-panic :
      (a b : ℤ) (vm : Vm) → remainder_ints p vm a b ≡ panic → (a ≡ i64_min) × (b ≡ negsuc 0)
  unfolding remainder_ints
  remainder_ints-panic a b vm e = ground arith

  pub numeric-ne-panic :
      (int : ℤ → ℤ → Option ℤ) (flt : ℕ → ℕ → ℕ) (l r : Value) (vm : Vm)
      → numeric p int flt vm l r ≢ panic
  unfolding numeric
  numeric-ne-panic int flt l r vm = ground arith

  pub divide-ne-panic : (l r : Value) (vm : Vm) → binary p vm BinaryOperator.divide l r ≢ panic
  unfolding binary
  divide-ne-panic l r vm =
      ground (arith, numeric-ne-panic (λ m n. checked (quot_ℤ m n)) p.floats.quotient l r vm)

  pub compare_values-ne-panic :
      (op : BinaryOperator) (l r : Value) (vm : Vm) → compare_values p vm op l r ≢ panic
  unfolding compare_values
  compare_values-ne-panic op l r vm = ground arith

  pub remainder-panic :
      (l r : Value) (vm : Vm)
      → remainder p vm l r ≡ panic
      → (l ≡ Value.integer i64_min) × (r ≡ Value.integer (negsuc 0))
  unfolding remainder
  remainder-panic (Value.integer a) (Value.integer b) vm e =
      let h = remainder_ints-panic a b vm e in (ap Value.integer h.0, ap Value.integer h.1)
  remainder-panic l r vm e = cc

  pub binary-panic :
      (op : BinaryOperator) (l r : Value) (vm : Vm) → binary p vm op l r ≡ panic → Overflows op l r
  unfolding binary no_pattern
  binary-panic BinaryOperator.remainder l r vm e =
      let h = remainder-panic l r vm e in (refl, h.0, h.1)
  binary-panic BinaryOperator.add l r vm e = absurd (numeric-ne-panic _ _ l r vm e)
  binary-panic BinaryOperator.subtract l r vm e = absurd (numeric-ne-panic _ _ l r vm e)
  binary-panic BinaryOperator.multiply l r vm e = absurd (numeric-ne-panic _ _ l r vm e)
  binary-panic BinaryOperator.divide l r vm e = absurd (divide-ne-panic l r vm e)
  binary-panic BinaryOperator.less l r vm e = absurd (compare_values-ne-panic _ l r vm e)
  binary-panic BinaryOperator.less_equal l r vm e = absurd (compare_values-ne-panic _ l r vm e)
  binary-panic BinaryOperator.greater l r vm e = absurd (compare_values-ne-panic _ l r vm e)
  binary-panic BinaryOperator.greater_equal l r vm e = absurd (compare_values-ne-panic _ l r vm e)
  binary-panic op l r vm e = ground arith

  -- The stack under the one instruction that can abort the program.
  abbrev pub RemainderOverflows : Instruction → List Value → Type 0
  RemainderOverflows i stack =
      (i ≡ Instruction.binary BinaryOperator.remainder)
      × (rest : List Value) × (stack ≡ Value.integer (negsuc 0) ∷ Value.integer i64_min ∷ rest)

  pub binary_instruction-Sound :
      {b : Envelope}
      → (op : BinaryOperator) (stack : List Value) (vm : Vm) → vm.stack ≡ stack
      → Live b vm
      → ((binary_instruction p op vm).0 ≡ panic → RemainderOverflows (Instruction.binary op) stack)
        × Live b (binary_instruction p op vm).1
  unfolding binary_instruction pop push
  binary_instruction-Sound op [] vm e h = ground arith
  binary_instruction-Sound op (r ∷ []) vm e h = ground arith
  binary_instruction-Sound op (r ∷ l ∷ rest) vm e h = (
    λ q.
        let o : Overflows op l r =
          ground (arith, binary-panic op l r (record vm { stack = rest })) in
        (ap Instruction.binary o.0, rest, cc),
    ground arith,
  )
