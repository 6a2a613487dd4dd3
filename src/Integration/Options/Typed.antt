-- ===== src/Integration/Options/Typed.antt =====
-- src/integration.rs: the options that the methods of an OptionStore lead to.
use vim_script.Prelude.{
  ℕ, ◌≡◌, refl, true, ◌&&◌, none, some, List, [], ◌∷◌, Text, arith, text_eq, text_eq_iff, ◌==◌,
  ==_iff, find, store, erase, find-store, find-erase, Decides, if◌then◌else◌, Option-cases,
  Bool-cases, inl, inr,
}
use vim_script.Runtime.Value.{Value}
use vim_script.Runtime.Error.{ok}
use vim_script.Integration.Options.{
  OptionDefinition, OptionValues, Locals, OptionStore, is_of_kind, find_short, first_definition,
  definition, values_of, same_id, local_value, set_local, put_values, clear_found,
}

abbrev pub Definitions : Type 0
Definitions = List (Text × OptionDefinition)

-- Each definition stands under its name, and once.
unfoldable pub Named : Definitions → Type 0
Named [] = Unit {0}
Named ((k, d) ∷ m) = (d.name ≡ k) × (find text_eq k m ≡ none) × Named m

-- A value of a buffer or a window is one of an option that is defined, and of its kind.
abbrev pub LocalsTyped : Definitions → Locals → Type 0
LocalsTyped definitions locals =
    (k : Text) (b : ℕ) (v : Value)
    → local_value k b locals ≡ some v
    → (d : OptionDefinition) × (find text_eq k definitions ≡ some d) × (is_of_kind d.kind v ≡ true)

pub record IsTyped (s : OptionStore) : Type 0 where
  pub named : Named s.definitions
  pub defaults :
      (k : Text) (d : OptionDefinition)
      → find text_eq k s.definitions ≡ some d
      → is_of_kind d.kind d.default ≡ true
  pub globals :
      (k : Text) (d : OptionDefinition)
      → find text_eq k s.definitions ≡ some d
      → (v : Value) × (find text_eq k s.global ≡ some v) × (is_of_kind d.kind v ≡ true)
  pub buffers : LocalsTyped s.definitions s.buffers
  pub windows : LocalsTyped s.definitions s.windows

pub same_id-Decides : Decides same_id
same_id-Decides a b = ==_iff a b

pub find-name :
    (k : Text) (d : OptionDefinition) (m : Definitions)
    → Named m
    → find text_eq k m ≡ some d
    → d.name ≡ k
unfolding Named find
find-name k d [] n e = cc
find-name k d ((j, x) ∷ m) (same, fresh, rest) e =
    ground (arith, text_eq_iff j k, find-name k d m rest)

find_short-name :
    (name : Text) (d : OptionDefinition) (m : Definitions)
    → Named m
    → find_short name m ≡ some d
    → find text_eq d.name m ≡ some d
unfolding Named find find_short
find_short-name name d [] n e = cc
find_short-name name d ((j, x) ∷ m) (same, fresh, rest) e =
    ground (arith, text_eq_iff j d.name, find_short-name name d m rest)

pub definition-find :
    (name : Text) (d : OptionDefinition) (s : OptionStore)
    → Named s.definitions
    → definition name s ≡ ok d
    → find text_eq d.name s.definitions ≡ some d
unfolding definition first_definition
definition-find name d s n e = elim (Option-cases (find text_eq name s.definitions)) [
  | inr (x, found) ↦ ground (arith, found, find-name name x s.definitions n)
  | inl missing ↦ elim (Option-cases (find_short name s.definitions)) [
    | inr (x, found) ↦ ground (arith, missing, found, find_short-name name x s.definitions n)
    | inl absent ↦ ground (arith, missing, absent)
  ]
]

pub store-Named :
    (d : OptionDefinition) (m : Definitions)
    → Named m
    → find text_eq d.name m ≡ none
    → Named (store text_eq d.name d m)
unfolding Named find store
store-Named d [] n fresh = (refl, refl, tt)
store-Named d ((j, x) ∷ m) (same, once, rest) fresh = elim (Bool-cases (text_eq j d.name)) [
  | inl here ↦ ground (arith, here)
  | inr later ↦ rw later (
    same,
    ground (
      arith,
      find-store text_eq text_eq_iff d.name j d m,
      text_eq_iff d.name j,
      text_eq_iff j d.name,
    ),
    store-Named d m rest (ground (arith, later)),
  )
]

pub set_local-value :
    (k j : Text) (v : Value) (b c : ℕ) (locals : Locals)
    → local_value j c (set_local k v b locals)
      ≡ (if (b == c) && text_eq k j then some v else local_value j c locals)
unfolding local_value set_local values_of
set_local-value k j v b c locals =
    let values = values_of (find same_id b locals) in
    ground (
      arith,
      find-store same_id same_id-Decides b c (store text_eq k v values) locals,
      find-store text_eq text_eq_iff k j v values,
    )

put_values-values :
    (b c : ℕ) (m : OptionValues) (locals : Locals)
    → values_of (find same_id c (put_values b m locals))
      ≡ (if b == c then m else values_of (find same_id c locals))
unfolding put_values values_of
put_values-values b c [] locals = ground (arith, find-erase same_id same_id-Decides b c locals)
put_values-values b c (e ∷ m) locals =
    ground (arith, find-store same_id same_id-Decides b c (e ∷ m) locals)

nothing : (j : Text) → find {V = Value} text_eq j [] ≡ none
unfolding find
nothing j = refl

pub clear_found-value :
    (k j : Text) (b c : ℕ) (locals : Locals)
    → local_value j c (clear_found k b (find same_id b locals) locals)
      ≡ (if (b == c) && text_eq k j then none else local_value j c locals)
unfolding local_value clear_found values_of
clear_found-value k j b c locals = elim (Option-cases (find same_id b locals)) [
  | inl missing ↦ ground (arith, missing, nothing j)
  | inr (m, found) ↦ ground (
    arith,
    found,
    put_values-values b c (erase text_eq k m) locals,
    find-erase text_eq text_eq_iff k j m,
    values_of,
  )
]
