-- ===== src/Runtime/Builtins/Getting.antt =====
-- src/runtime/builtins.rs: get, beside the indexing of src/runtime/vm.rs.
use vim_script.Prelude.{
  ℕ, ◌≡◌, ◌⊎◌, inl, inr, refl, Option, none, some, List, [], ◌∷◌, Text, length, ℤ, get_elem?,
}
use vim_script.Runtime.Value.{Value, Entries, to_list}
use vim_script.Runtime.Error.{RuntimeErrorKind, RuntimeError, Result, ok, err, panic}
use vim_script.Runtime.Vm.State.{Vm, Platform}
use vim_script.Runtime.Arithmetic.{
  normalize_index, value_at, char_at, found_or, get_index, get_key, dict_get, dictionary_key,
}
use vim_script.Runtime.Builtins.Display.{key_string}
use vim_script.Runtime.Builtins.Collections.{
  builtin_index, or_default, element_at, character_at, get_from, get_or_default,
}

builtin_index-eq : (i : ℤ) (len : ℕ) → builtin_index i len ≡ normalize_index i len
unfolding builtin_index normalize_index
builtin_index-eq i len = refl

-- What `get` makes of the result of indexing: the default in place of an error.
abbrev pub Defaulted : Value → Result Value → Result Value → Type 0
Defaulted default indexed (ok w) =
    (indexed ≡ ok w) ⊎ (((e : RuntimeError) × (indexed ≡ err e)) × (w ≡ default))
Defaulted default indexed (err e) = (x : RuntimeError) × (indexed ≡ err x)
Defaulted default indexed panic = ⊥

module _ (p : Platform) (vm : Vm) (default : Value) where
  found-Defaulted :
      (o : Option Value) (kind : RuntimeErrorKind) (message : Text)
      → Defaulted default (found_or o vm kind message) (ok (or_default default o))
  unfolding found_or or_default
  found-Defaulted none kind message = inr ((_, refl), refl)
  found-Defaulted (some v) kind message = inl refl

  list-Defaulted :
      (vs : List Value) (o : Option ℕ) (kind : RuntimeErrorKind) (message : Text)
      → Defaulted default
          (found_or (value_at vs o) vm kind message)
          (ok (or_default default (element_at vs o)))
  unfolding value_at element_at
  list-Defaulted vs none kind message = found-Defaulted none kind message
  list-Defaulted vs (some k) kind message = found-Defaulted (get_elem? vs k) kind message

  text-Defaulted :
      (s : Text) (o : Option ℕ) (kind : RuntimeErrorKind) (message : Text)
      → Defaulted default
          (found_or (char_at s o) vm kind message)
          (ok (or_default default (character_at s o)))
  unfolding char_at character_at
  text-Defaulted s none kind message = found-Defaulted none kind message
  text-Defaulted s (some k) kind message = found-Defaulted (char_at s (some k)) kind message

  key-Defaulted :
      (es : Entries) (key : Value)
      → Defaulted default
          (get_index p vm (Value.dictionary es) key)
          (get_or_default (Value.dictionary es ∷ key ∷ default ∷ []))
  unfolding get_index get_key get_or_default get_from dictionary_key key_string
  key-Defaulted es (Value.string k) = found-Defaulted (dict_get es k) _ _
  key-Defaulted es (Value.integer n) = found-Defaulted (dict_get es _) _ _
  key-Defaulted es _ = (_, refl)

  -- `get` with a default gives what indexing gives, and the default where indexing is an error,
  -- unless `get` is an error, which happens only where indexing is one; it does not abort.
  get-Defaulted :
      (v key : Value)
      → Defaulted default (get_index p vm v key) (get_or_default (v ∷ key ∷ default ∷ []))
  unfolding get_index get_or_default get_from builtin_index normalize_index
  get-Defaulted (Value.dictionary es) key = key-Defaulted es key
  get-Defaulted (Value.list vs) (Value.integer i) =
      list-Defaulted (to_list vs) (normalize_index i (length (to_list vs))) _ _
  get-Defaulted (Value.string s) (Value.integer i) =
      text-Defaulted s (normalize_index i (length s)) _ _
  get-Defaulted _ _ = (_, refl)
