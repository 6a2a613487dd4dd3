-- ===== src/Prelude/Digits.antt =====
-- The decimal digits of a number are read back as the number.
use Prim.Native.Nat.{ℕ, zero, suc, ◌+◌, ◌-◌, ◌*◌, ◌/◌, ◌%◌, ◌<◌}
use mathlib.Core.Path.{◌≡◌, refl, ◌∙◌, sym, subst}
use mathlib.Core.Logic.{inl, inr}
use mathlib.Core.Bool.{Bool, true, ◌&&◌}
use mathlib.Core.List.{[], ◌∷◌, ◌++◌, append_assoc, append-nil}
use native.Mathlib.Omega.{arith}
use vim_script.Prelude.Tests.{ltb, Bool-cases}
use vim_script.Prelude.Lists.{length, length-append}
use vim_script.Prelude.Texts.{Text, digits_onto, show_ℕ}
use vim_script.Prelude.Chars.{is_ascii_digit}

-- The value of decimal digits, most significant first.
unfoldable pub digits_value : ℕ → Text → ℕ
digits_value n [] = n
digits_value n (c ∷ s) = digits_value (10 * n + (c - 48)) s

unfoldable pub all_by : (ℕ → Bool) → Text → Bool
all_by p [] = true
all_by p (c ∷ s) = p c && all_by p s

all_by-append :
    (p : ℕ → Bool) (s t : Text) → all_by p s ≡ true → all_by p t ≡ true → all_by p (s ++ t) ≡ true
unfolding all_by
all_by-append p [] t h k = k
all_by-append p (c ∷ s) t h k = ground (arith, all_by-append p s t)

digits_value-append :
    (n : ℕ) (s : Text) (c : ℕ) → digits_value n (s ++ c ∷ []) ≡ 10 * digits_value n s + (c - 48)
unfolding digits_value
digits_value-append n [] c = refl
digits_value-append n (d ∷ s) c = digits_value-append (10 * n + (d - 48)) s c

abbrev IsDecimal : ℕ → Text → Type 0
IsDecimal n s = (all_by is_ascii_digit s ≡ true) × (0 < length s) × (digits_value 0 s ≡ n)

digits_onto-IsDecimal :
    (fuel n : ℕ) (out : Text)
    → n < fuel
    → (s : Text) × (digits_onto fuel n out ≡ s ++ out) × IsDecimal n s
unfolding digits_onto is_ascii_digit digits_value all_by
digits_onto-IsDecimal zero n out h = absurd (omega arith)
digits_onto-IsDecimal (suc fuel) n out h = elim (Bool-cases (ltb n 10)) [
  | inl small ↦ ((48 + n) ∷ [], rw small refl, (ground arith, omega arith, ground arith))
  | inr large ↦
      let (s, e, (all, filled, value)) =
        digits_onto-IsDecimal fuel (n / 10) ((48 + n % 10) ∷ out) (ground arith) in
      (
        s ++ (48 + n % 10) ∷ [],
        rw large (e ∙ sym (append_assoc s ((48 + n % 10) ∷ []) out)),
        (
          all_by-append is_ascii_digit s ((48 + n % 10) ∷ []) all (ground arith),
          omega (arith, length-append s ((48 + n % 10) ∷ [])),
          omega (arith, digits_value-append 0 s (48 + n % 10), value),
        ),
      )
]

-- The digits of a number are digits, at least one, and have the number as their value.
pub show_ℕ-IsDecimal :
    (n : ℕ)
    → (all_by is_ascii_digit (show_ℕ n) ≡ true)
      × (0 < length (show_ℕ n))
      × (digits_value 0 (show_ℕ n) ≡ n)
unfolding show_ℕ
show_ℕ-IsDecimal n =
    let (s, e, decimal) = digits_onto-IsDecimal (suc n) n [] (omega arith) in
    subst (IsDecimal n) (sym (e ∙ append-nil s)) decimal
