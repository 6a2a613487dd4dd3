-- ===== src/Runtime/Builtins/Extrema.antt =====
-- src/runtime/builtins.rs: min and max.
use vim_script.Prelude.{
  ◌≡◌, refl, Bool, true, false, ◌||◌, List, [], ◌∷◌, map, arith, ℤ, eq_ℤ, ltb_ℤ, if◌then◌else◌,
}
use vim_script.Runtime.Value.{Value, of_list, to_list-of_list}
use vim_script.Runtime.Error.{ok}
use vim_script.Runtime.Builtins.Numbers.{pick, extremum_from, extremum_of, extremum}

abbrev pub integers : List ℤ → Value
integers ns = Value.list (of_list (map Value.integer ns))

abbrev pub occurs : ℤ → List ℤ → Bool
occurs r [] = false
occurs r (n ∷ ns) = eq_ℤ r n || occurs r ns

-- No number is below `r`, or above it when a maximum is meant.
abbrev pub Unbeaten : Bool → ℤ → List ℤ → Type 0
Unbeaten minimum r [] = Unit {0}
Unbeaten minimum r (n ∷ ns) =
    ((if minimum then ltb_ℤ n r else ltb_ℤ r n) ≡ false) × Unbeaten minimum r ns

Unbeaten-mono :
    (minimum : Bool) (r q : ℤ)
    → (if minimum then ltb_ℤ q r else ltb_ℤ r q) ≡ false
    → (n : ℤ) → (if minimum then ltb_ℤ n q else ltb_ℤ q n) ≡ false
    → (if minimum then ltb_ℤ n r else ltb_ℤ r n) ≡ false
Unbeaten-mono minimum r q h n k = ground arith

pick-bounds :
    (minimum : Bool) (a b : ℤ)
    → ((if minimum then ltb_ℤ a (pick minimum a b) else ltb_ℤ (pick minimum a b) a) ≡ false)
      × ((if minimum then ltb_ℤ b (pick minimum a b) else ltb_ℤ (pick minimum a b) b) ≡ false)
      × ((eq_ℤ (pick minimum a b) a || eq_ℤ (pick minimum a b) b) ≡ true)
unfolding pick
pick-bounds true a b = ground arith
pick-bounds false a b = ground arith

eq_ℤ-eq : (a b : ℤ) → eq_ℤ a b ≡ true → a ≡ b
eq_ℤ-eq a b h = ground arith

extremum_from-Unbeaten :
    (minimum : Bool) (a : ℤ) (ns : List ℤ)
    → (r : ℤ) × (extremum_from minimum a (map Value.integer ns) ≡ ok (Value.integer r))
      × (occurs r (a ∷ ns) ≡ true)
      × Unbeaten minimum r (a ∷ ns)
unfolding extremum_from
extremum_from-Unbeaten minimum a [] = (a, refl, ground arith, (ground arith, tt))
extremum_from-Unbeaten minimum a (n ∷ ns) =
    let (r, e, at, (h, all)) = extremum_from-Unbeaten minimum (pick minimum a n) ns in
    let (below_a, below_n, either) = pick-bounds minimum a n in
    (
      r,
      e,
      ground (arith, at, either, eq_ℤ-eq r (pick minimum a n)),
      (
        Unbeaten-mono minimum r (pick minimum a n) h a below_a,
        (Unbeaten-mono minimum r (pick minimum a n) h n below_n, all),
      ),
    )

-- `min` and `max` of a list of numbers that is not empty give a number of the list that no number
-- of the list is below or above, respectively.
extremum-Unbeaten :
    (minimum : Bool) (n : ℤ) (ns : List ℤ)
    → (r : ℤ) × (extremum (integers (n ∷ ns)) minimum ≡ ok (Value.integer r))
      × (occurs r (n ∷ ns) ≡ true)
      × Unbeaten minimum r (n ∷ ns)
unfolding extremum extremum_of
extremum-Unbeaten minimum n ns =
    let (r, e, at, all) = extremum_from-Unbeaten minimum n ns in
    (r, rw (to_list-of_list (map Value.integer (n ∷ ns))) e, at, all)
