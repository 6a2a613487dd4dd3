-- ===== src/Integration/Options/Reads.antt =====
-- src/integration.rs: what get reads in an OptionStore.
use vim_script.Prelude.{
  text, ◌++◌, text, ◌++◌, ◌≡◌, ◌⊎◌, refl, true, false, Option, none, some, Text, arith, text_eq,
  text_eq_iff, find, find-store, Option-cases, Bool-cases, inl, inr,
}
use vim_script.Runtime.Value.{Value}
use vim_script.Runtime.Error.{RuntimeErrorKind, RuntimeErrorKind, RuntimeError, ok, err}
use vim_script.Integration.Options.{
  option_error, kind_name, option_error, kind_name, OptionDefinition, OptionScope, OptionStore,
  is_of_kind, validate_option_value, definition, local_at, value_or_global, defined_at, get_option,
  write_at, set_option, reset_at, reset_option,
}
use vim_script.Integration.Options.Typed.{IsTyped, set_local-value, clear_found-value}
use vim_script.Integration.Options.Kept.{defined_at-find, Reached, Reached-IsTyped}

text_eq_refl : (s : Text) → text_eq s s ≡ true
text_eq_refl s = (text_eq_iff s s).1 refl

local_value-kind :
    (scope : OptionScope) (d : OptionDefinition) (s : OptionStore) (v : Value)
    → IsTyped s
    → find text_eq d.name s.definitions ≡ some d
    → local_at d.name scope s ≡ some v
    → is_of_kind d.kind v ≡ true
unfolding local_at
local_value-kind OptionScope.global d s v t found at = cc
local_value-kind (OptionScope.buffer b) d s v t found at =
    let (x, has, kind) = t.buffers d.name b v at in ground arith
local_value-kind (OptionScope.window w) d s v t found at =
    let (x, has, kind) = t.windows d.name w v at in ground arith

-- In a store that the methods lead to, `get` of an option that is defined and has the scope gives a
-- value of the option's kind; so it never reports that an option has no value.
pub get_option-kind :
    (s : OptionStore) (name : Text) (scope : OptionScope) (d : OptionDefinition)
    → Reached s
    → defined_at name scope s ≡ ok d
    → (v : Value) × (get_option name scope s ≡ ok v) × (is_of_kind d.kind v ≡ true)
unfolding get_option value_or_global
get_option-kind s name scope d r defined =
    let t = Reached-IsTyped s r in
    let found = defined_at-find name scope d s t defined in
    elim (Option-cases (local_at d.name scope s)) [
      | inr (v, at) ↦
          (v, rw (defined, get_option, at) refl, local_value-kind scope d s v t found at)
      | inl absent ↦
          let (v, at, kind) = t.globals d.name d found in
          (v, rw (defined, get_option, absent, at) refl, kind)
    ]

-- The value that is read where the scope itself has none.
abbrev pub unset_value : OptionScope → OptionDefinition → OptionStore → Option Value
unset_value OptionScope.global d s = some d.default
unset_value (OptionScope.buffer b) d s = find text_eq d.name s.global
unset_value (OptionScope.window w) d s = find text_eq d.name s.global

write_at-read :
    (scope : OptionScope) (d : OptionDefinition) (v : Value) (s : OptionStore)
    → value_or_global d.name
        (local_at d.name scope (write_at scope d.name v s))
        (find text_eq d.name (write_at scope d.name v s).global)
      ≡ ok v
unfolding value_or_global local_at write_at
write_at-read OptionScope.global d v s =
    ground (arith, find-store text_eq text_eq_iff d.name d.name v s.global, text_eq_refl d.name)
write_at-read (OptionScope.buffer b) d v s =
    ground (arith, set_local-value d.name d.name v b b s.buffers, text_eq_refl d.name)
write_at-read (OptionScope.window w) d v s =
    ground (arith, set_local-value d.name d.name v w w s.windows, text_eq_refl d.name)

reset_at-read :
    (scope : OptionScope) (d : OptionDefinition) (s : OptionStore)
    → value_or_global d.name
        (local_at d.name scope (reset_at scope d s))
        (find text_eq d.name (reset_at scope d s).global)
      ≡ value_or_global d.name none (unset_value scope d s)
unfolding value_or_global local_at reset_at
reset_at-read OptionScope.global d s =
    ground
      (arith, find-store text_eq text_eq_iff d.name d.name d.default s.global, text_eq_refl d.name)
reset_at-read (OptionScope.buffer b) d s =
    ground (arith, clear_found-value d.name d.name b b s.buffers, text_eq_refl d.name)
reset_at-read (OptionScope.window w) d s =
    ground (arith, clear_found-value d.name d.name w w s.windows, text_eq_refl d.name)

write_at-defined :
    (scope at : OptionScope) (name k : Text) (v : Value) (s : OptionStore)
    → defined_at name at (write_at scope k v s) ≡ defined_at name at s
unfolding defined_at definition write_at
write_at-defined OptionScope.global at name k v s = refl
write_at-defined (OptionScope.buffer b) at name k v s = refl
write_at-defined (OptionScope.window w) at name k v s = refl

reset_at-defined :
    (scope at : OptionScope) (name : Text) (d : OptionDefinition) (s : OptionStore)
    → defined_at name at (reset_at scope d s) ≡ defined_at name at s
unfolding defined_at definition reset_at
reset_at-defined OptionScope.global at name d s = refl
reset_at-defined (OptionScope.buffer b) at name d s = refl
reset_at-defined (OptionScope.window w) at name d s = refl

unfoldable pub wrong_kind : OptionDefinition → RuntimeError
wrong_kind d =
    option_error (text "E_OPTION_TYPE") RuntimeErrorKind.type_error
      (text "value does not match option kind " ++ kind_name d.kind)

module _ (name : Text) (scope : OptionScope) (d : OptionDefinition) (s : OptionStore)
    (defined : defined_at name scope s ≡ ok d) where
  accepted :
      (v : Value)
      → is_of_kind d.kind v ≡ true
      → set_option name scope v s ≡ (ok tt, write_at scope d.name v s)
  unfolding set_option validate_option_value
  accepted v kind = rw (defined, set_option, kind, validate_option_value) refl

  refused :
      (v : Value)
      → is_of_kind d.kind v ≡ false
      → set_option name scope v s ≡ (err (wrong_kind d), s)
  unfolding set_option validate_option_value wrong_kind
  refused v wrong = rw (defined, set_option, wrong, validate_option_value) refl

  written : (v : Value) → get_option name scope (write_at scope d.name v s) ≡ ok v
  unfolding get_option
  written v =
      rw (write_at-defined scope scope name d.name v s, defined, get_option)
        (write_at-read scope d v s)

  was_reset : reset_option name scope s ≡ (ok tt, reset_at scope d s)
  unfolding reset_option
  was_reset = rw (defined, reset_option) refl

  read_reset :
      get_option name scope (reset_at scope d s)
      ≡ value_or_global d.name none (unset_value scope d s)
  unfolding get_option
  read_reset =
      rw (reset_at-defined scope scope name d s, defined, get_option) (reset_at-read scope d s)

  -- After `set` of an option that is defined and has the scope: a value of its kind is accepted, and
  -- `get` of the same name and scope gives it; any other value is refused and changes nothing.
  pub get-set_option :
      (v : Value)
      → ((is_of_kind d.kind v ≡ true)
          × ((set_option name scope v s).0 ≡ ok tt)
          × (get_option name scope (set_option name scope v s).1 ≡ ok v))
        ⊎ ((is_of_kind d.kind v ≡ false) × (set_option name scope v s ≡ (err (wrong_kind d), s)))
  get-set_option v = elim (Bool-cases (is_of_kind d.kind v)) [
    | inl kind ↦ inl (kind, rw (accepted v kind) refl, rw (accepted v kind) (written v))
    | inr wrong ↦ inr (wrong, refused v wrong)
  ]

  -- `reset` of an option that is defined and has the scope succeeds, and afterwards `get` gives the
  -- default when the scope is the global one, and the global value when it is a buffer or a window.
  pub get-reset_option :
      ((reset_option name scope s).0 ≡ ok tt)
      × (get_option name scope (reset_option name scope s).1
          ≡ value_or_global d.name none (unset_value scope d s))
  get-reset_option = (rw was_reset refl, rw was_reset read_reset)
