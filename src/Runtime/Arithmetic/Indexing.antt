-- ===== src/Runtime/Arithmetic/Indexing.antt =====
-- src/runtime/vm.rs: `normalize_index` and the indexing of lists.
use vim_script.Prelude.{
  ℕ, zero, suc, ◌+◌, ◌<◌, ◌≡◌, ◌↔◌, ◌⊎◌, inl, inr, refl, Bool, true, false, ◌&&◌, some, List, [],
  ◌∷◌, text, arith, ℤ, pos, negsuc, ◌+ℤ◌, Bool-cases, Option-cases, ltb, ◌==◌, length, get_elem?,
}
use vim_script.Runtime.Value.{Value, Values, to_list}
use vim_script.Runtime.Error.{RuntimeErrorKind, ok, err}
use vim_script.Runtime.Vm.State.{Vm, Platform, error}
use vim_script.Runtime.Arithmetic.{normalize_index, value_at, found_or, get_index}

-- The index that an integer names in a collection of a length: it counts from the end when
-- it is negative.
unfoldable pub names_index : ℤ → ℕ → ℕ → Bool
names_index (pos n) len k = (n == k) && ltb k len
names_index (negsuc n) len k = k + suc n == len

normalize_index-names :
    (i : ℤ) (len k : ℕ) → (normalize_index i len ≡ some k) ↔ (names_index i len k ≡ true)
unfolding normalize_index names_index ◌+ℤ◌
normalize_index-names (pos n) len k = ground arith
normalize_index-names (negsuc n) len k = ground arith

names_index-lt : (i : ℤ) (len k : ℕ) → names_index i len k ≡ true → k < len
unfolding names_index
names_index-lt (pos n) len k h = ground arith
names_index-lt (negsuc n) len k h = ground arith

get_elem?-length :
    {A : Type 0} (k : ℕ) (xs : List A) → k < length xs → (x : A) × (get_elem? xs k ≡ some x)
get_elem?-length k [] lt = ground arith
get_elem?-length zero (x ∷ xs) lt = (x, refl)
get_elem?-length (suc k) (x ∷ xs) lt = get_elem?-length k xs (omega arith)

module _ (p : Platform) (vm : Vm) where
  -- Indexing a list by an integer gives the element at the index that the integer names, counted from
  -- the end when it is negative, and it is the error of an index that is out of range
  -- exactly when the integer names no index of the list.
  pub get_index-names :
      (vs : Values) (i : ℤ)
      → ((k : ℕ) × (v : Value) × (names_index i (length (to_list vs)) k ≡ true)
          × (get_elem? (to_list vs) k ≡ some v)
          × (get_index p vm (Value.list vs) (Value.integer i) ≡ ok v))
        ⊎ (((k : ℕ) → names_index i (length (to_list vs)) k ≡ false)
            × (get_index p vm (Value.list vs) (Value.integer i)
                ≡ err (error vm RuntimeErrorKind.index_error (text "list index out of range"))))
  unfolding get_index value_at found_or
  get_index-names vs i = elim (Option-cases (normalize_index i (length (to_list vs)))) [
    | inl out ↦ inr (
      λ k. elim (Bool-cases (names_index i (length (to_list vs)) k)) [
        | inl named ↦ ground (arith, (normalize_index-names i (length (to_list vs)) k).1 named, out)
        | inr unnamed ↦ unnamed
      ],
      rw (out, value_at) refl,
    )
    | inr (k, at) ↦
        let names = (normalize_index-names i (length (to_list vs)) k).0 at in
        let (v, e) =
          get_elem?-length k (to_list vs) (names_index-lt i (length (to_list vs)) k names) in
        inl (k, v, names, e, rw (at, value_at) (rw (e, found_or) refl))
  ]
