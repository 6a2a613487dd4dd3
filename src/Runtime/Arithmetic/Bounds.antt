-- ===== src/Runtime/Arithmetic/Bounds.antt =====
-- src/runtime/vm.rs: integer results are exact, and stay within an `i64`.
use vim_script.Prelude.{
  ◌-◌, ◌^◌, ◌≡◌, Bool, true, false, text, ℤ, pos, negsuc, ◌+ℤ◌, ◌-ℤ◌, ◌*ℤ◌, quot_ℤ, rem_ℤ, IsI64,
}
use vim_script.Ast.{BinaryOperator}
use vim_script.Runtime.Value.{Value}
use vim_script.Runtime.Error.{RuntimeErrorKind, Result, ok, err, panic}
use vim_script.Runtime.Vm.State.{Vm, error}
use vim_script.Runtime.Arithmetic.{remainder}

-- The integer operation that an arithmetic operator stands for.
pub data Exact : BinaryOperator → (ℤ → ℤ → ℤ) → Type 0 where
  exact_add : Exact BinaryOperator.add ◌+ℤ◌
  exact_subtract : Exact BinaryOperator.subtract ◌-ℤ◌
  exact_multiply : Exact BinaryOperator.multiply ◌*ℤ◌
  exact_divide : Exact BinaryOperator.divide quot_ℤ
  exact_remainder : Exact BinaryOperator.remainder rem_ℤ

-- The error of an operator whose result is no `i64`.
abbrev pub overflow : {A : Type 0} → Vm → Result A
overflow vm = err (error vm RuntimeErrorKind.type_error (text "integer overflow"))

abbrev divides : BinaryOperator → Bool
divides BinaryOperator.divide = true
divides BinaryOperator.remainder = true
divides _ = false

abbrev remains : BinaryOperator → Bool
remains BinaryOperator.remainder = true
remains _ = false

-- A division or a remainder by zero, and the remainder of the least `i64` by -1.
abbrev pub ByZero : BinaryOperator → ℤ → Type 0
ByZero op b = (divides op ≡ true) × (b ≡ pos 0)

abbrev pub Aborts : BinaryOperator → ℤ → ℤ → Type 0
Aborts op a b = (remains op ≡ true) × (a ≡ negsuc (2 ^ 63 - 1)) × (b ≡ negsuc 0)

-- What an arithmetic operator gives for two integers, `n` being the exact result. The conditions of
-- the four cases exclude each other.
pub data IntegerResult (vm : Vm) (op : BinaryOperator) (a b n : ℤ) : Result Value → Type 0 where
  fits :
      (ByZero op b → ⊥)
      → (Aborts op a b → ⊥)
      → IsI64 n
      → IntegerResult vm op a b n (ok (Value.integer n))
  overflows : (ByZero op b → ⊥) → (IsI64 n → ⊥) → IntegerResult vm op a b n (overflow vm)
  by_zero :
      ByZero op b
      → IntegerResult vm op a b n
          (err (error vm RuntimeErrorKind.division_by_zero (text "division by zero")))
  aborts : Aborts op a b → IntegerResult vm op a b n panic
