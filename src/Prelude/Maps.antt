-- ===== src/Prelude/Maps.antt =====
-- A `HashMap` as an association list, by a test of its keys. A removal takes every entry of a key.
use mathlib.Core.Path.{◌≡◌, refl}
use mathlib.Core.Logic.{◌↔◌}
use mathlib.Core.Bool.{Bool, true}
use mathlib.Core.Option.{Option, none, some}
use mathlib.Core.List.{List, [], ◌∷◌}
use native.Mathlib.Omega.{arith}
use vim_script.Prelude.Tests.{if◌then◌else◌}

module _ {ℓ} {K : Type ℓ} where
  -- A test that is true of equal keys, and of no others.
  abbrev pub Decides : (K → K → Bool) → Type ℓ
  Decides eq = (a b : K) → (eq a b ≡ true) ↔ (a ≡ b)

module _ {ℓ} {K : Type ℓ} {V : Type ℓ} (eq : K → K → Bool) where
  unfoldable pub find : K → List (K × V) → Option V
  find k [] = none
  find k ((j, v) ∷ m) = let rest = find k m in if eq j k then some v else rest

  unfoldable pub store : K → V → List (K × V) → List (K × V)
  store k v [] = (k, v) ∷ []
  store k v ((j, w) ∷ m) = let rest = store k v m in if eq j k then (k, v) ∷ m else (j, w) ∷ rest

  unfoldable pub erase : K → List (K × V) → List (K × V)
  erase k [] = []
  erase k ((j, w) ∷ m) = let rest = erase k m in if eq j k then rest else (j, w) ∷ rest

  module _ (decides : Decides eq) where
    pub find-store :
        (k j : K) (v : V) (m : List (K × V))
        → find j (store k v m) ≡ (if eq k j then some v else find j m)
    unfolding find store
    find-store k j v [] = refl
    find-store k j v ((i, w) ∷ m) =
        ground (arith, decides k j, decides i k, decides i j, find-store k j v m)

    pub find-erase :
        (k j : K) (m : List (K × V)) → find j (erase k m) ≡ (if eq k j then none else find j m)
    unfolding find erase
    find-erase k j [] = ground arith
    find-erase k j ((i, w) ∷ m) =
        ground (arith, decides k j, decides i k, decides i j, find-erase k j m)
