-- ===== src/Integration/Options/Kept.antt =====
-- src/integration.rs: the methods of an OptionStore keep its options typed.
use vim_script.Prelude.{
  ℕ, ◌≡◌, sym, ◌∙◌, ap, subst, true, ◌&&◌, none, some, [], Text, arith, text_eq, text_eq_iff, ◌==◌,
  find, store, find-store, Option-cases, Bool-cases, inl, inr,
}
use vim_script.Runtime.Value.{Value}
use vim_script.Runtime.Error.{ok, Result-cases}
use vim_script.Integration.Options.{
  OptionDefinition, OptionScope, OptionValues, Locals, OptionStore, is_of_kind,
  validate_option_value, definition, taken, add_definition, is_blank, define_valid, define,
  local_value, defined_at, set_local, write_at, set_option, clear_found, values_of, reset_at,
  reset_option, same_id,
}
use vim_script.Integration.Options.Typed.{
  Definitions, Named, LocalsTyped, IsTyped, definition-find, store-Named, set_local-value,
  clear_found-value,
}

abbrev pub empty_store : OptionStore
empty_store = record { definitions = []; global = []; buffers = []; windows = [] }

empty-IsTyped : IsTyped empty_store
unfolding Named find local_value values_of
empty-IsTyped = record {
  named = tt;
  defaults = λ k d e. cc;
  globals = λ k d e. cc;
  buffers = λ k b v e. cc;
  windows = λ k b v e. cc;
}

-- A new definition leaves the values of buffers and windows typed.
define-LocalsTyped :
    (d : OptionDefinition) (m : Definitions) (locals : Locals)
    → find text_eq d.name m ≡ none
    → LocalsTyped m locals
    → LocalsTyped (store text_eq d.name d m) locals
define-LocalsTyped d m locals fresh typed k b v e =
    let (x, found, kind) = typed k b v e in
    (x, ground (arith, find-store text_eq text_eq_iff d.name k d m, text_eq_iff d.name k), kind)

add_definition-IsTyped :
    (d : OptionDefinition) (s : OptionStore)
    → IsTyped s
    → find text_eq d.name s.definitions ≡ none
    → is_of_kind d.kind d.default ≡ true
    → IsTyped (add_definition d s)
unfolding add_definition
add_definition-IsTyped d s t fresh kind = record {
  named = store-Named d s.definitions t.named fresh;
  defaults = λ k x e.
      ground (arith, find-store text_eq text_eq_iff d.name k d s.definitions, t.defaults k x);
  globals = λ k x e. elim (Bool-cases (text_eq d.name k)) [
    | inl same ↦ (
      d.default,
      ground (arith, find-store text_eq text_eq_iff d.name k d.default s.global),
      ground (arith, find-store text_eq text_eq_iff d.name k d s.definitions),
    )
    | inr other ↦
        let (v, found, typed) =
          t.globals k x (ground (arith, find-store text_eq text_eq_iff d.name k d s.definitions)) in
        (v, ground (arith, find-store text_eq text_eq_iff d.name k d.default s.global), typed)
  ];
  buffers = define-LocalsTyped d s.definitions s.buffers fresh t.buffers;
  windows = define-LocalsTyped d s.definitions s.windows fresh t.windows;
}

define-IsTyped : (d : OptionDefinition) (s : OptionStore) → IsTyped s → IsTyped (define d s).1
unfolding define define_valid validate_option_value
define-IsTyped d s t = elim (Bool-cases (is_of_kind d.kind d.default)) [
  | inr wrong ↦ rw (wrong, validate_option_value, define) t
  | inl kind ↦ elim (Bool-cases (is_blank d.name)) [
    | inl blank ↦ rw (kind, validate_option_value, define, blank, define_valid) t
    | inr named ↦ elim (Option-cases (find text_eq d.name s.definitions)) [
      | inr (x, found) ↦ rw (kind, validate_option_value, define, named, define_valid, found) t
      | inl fresh ↦ elim (Bool-cases (taken d.short_name s.definitions)) [
        | inl clash ↦ rw (kind, validate_option_value, define, named, define_valid, fresh, clash) t
        | inr free ↦
            rw (kind, validate_option_value, define, named, define_valid, fresh, free)
              (add_definition-IsTyped d s t fresh kind)
      ]
    ]
  ]
]

set_local-LocalsTyped :
    (d : OptionDefinition) (m : Definitions) (v : Value) (b : ℕ) (locals : Locals)
    → find text_eq d.name m ≡ some d
    → is_of_kind d.kind v ≡ true
    → LocalsTyped m locals
    → LocalsTyped m (set_local d.name v b locals)
set_local-LocalsTyped d m v b locals found kind typed k c w e =
    elim (Bool-cases ((b == c) && text_eq d.name k)) [
      | inl here ↦ (
        d,
        ground (arith, here, text_eq_iff d.name k),
        ground (arith, here, set_local-value d.name k v b c locals),
      )
      | inr elsewhere ↦
          typed k c w (ground (arith, elsewhere, set_local-value d.name k v b c locals))
    ]

global-IsTyped :
    (d : OptionDefinition) (m : Definitions) (v : Value) (global : OptionValues)
    → find text_eq d.name m ≡ some d
    → is_of_kind d.kind v ≡ true
    → (k : Text) (x : OptionDefinition) → find text_eq k m ≡ some x
    → ((w : Value) × (find text_eq k global ≡ some w) × (is_of_kind x.kind w ≡ true))
    → (w : Value) × (find text_eq k (store text_eq d.name v global) ≡ some w)
      × (is_of_kind x.kind w ≡ true)
global-IsTyped d m v global found kind k x at (w, has, typed) =
    elim (Bool-cases (text_eq d.name k)) [
      | inl same ↦ (
        v,
        ground (arith, find-store text_eq text_eq_iff d.name k v global),
        ground (arith, text_eq_iff d.name k),
      )
      | inr other ↦ (w, ground (arith, find-store text_eq text_eq_iff d.name k v global), typed)
    ]

write_at-IsTyped :
    (scope : OptionScope) (d : OptionDefinition) (v : Value) (s : OptionStore)
    → IsTyped s
    → find text_eq d.name s.definitions ≡ some d
    → is_of_kind d.kind v ≡ true
    → IsTyped (write_at scope d.name v s)
unfolding write_at
write_at-IsTyped OptionScope.global d v s t found kind = record {
  named = t.named;
  defaults = t.defaults;
  globals = λ k x e. global-IsTyped d s.definitions v s.global found kind k x e (t.globals k x e);
  buffers = t.buffers;
  windows = t.windows;
}
write_at-IsTyped (OptionScope.buffer b) d v s t found kind = record {
  named = t.named;
  defaults = t.defaults;
  globals = t.globals;
  buffers = set_local-LocalsTyped d s.definitions v b s.buffers found kind t.buffers;
  windows = t.windows;
}
write_at-IsTyped (OptionScope.window w) d v s t found kind = record {
  named = t.named;
  defaults = t.defaults;
  globals = t.globals;
  buffers = t.buffers;
  windows = set_local-LocalsTyped d s.definitions v w s.windows found kind t.windows;
}

clear_found-LocalsTyped :
    (k : Text) (m : Definitions) (b : ℕ) (locals : Locals)
    → LocalsTyped m locals
    → LocalsTyped m (clear_found k b (find same_id b locals) locals)
clear_found-LocalsTyped k m b locals typed j c v e =
    typed j c v (ground (arith, clear_found-value k j b c locals))

reset_at-IsTyped :
    (scope : OptionScope) (d : OptionDefinition) (s : OptionStore)
    → IsTyped s
    → find text_eq d.name s.definitions ≡ some d
    → IsTyped (reset_at scope d s)
unfolding reset_at
reset_at-IsTyped OptionScope.global d s t found = record {
  named = t.named;
  defaults = t.defaults;
  globals = λ k x e.
      global-IsTyped d s.definitions d.default s.global found (t.defaults d.name d found) k x e
        (t.globals k x e);
  buffers = t.buffers;
  windows = t.windows;
}
reset_at-IsTyped (OptionScope.buffer b) d s t found = record {
  named = t.named;
  defaults = t.defaults;
  globals = t.globals;
  buffers = clear_found-LocalsTyped d.name s.definitions b s.buffers t.buffers;
  windows = t.windows;
}
reset_at-IsTyped (OptionScope.window w) d s t found = record {
  named = t.named;
  defaults = t.defaults;
  globals = t.globals;
  buffers = t.buffers;
  windows = clear_found-LocalsTyped d.name s.definitions w s.windows t.windows;
}

-- A definition that may be used at a scope is the one of its name.
pub defined_at-find :
    (name : Text) (scope : OptionScope) (d : OptionDefinition) (s : OptionStore)
    → IsTyped s
    → defined_at name scope s ≡ ok d
    → find text_eq d.name s.definitions ≡ some d
unfolding defined_at
defined_at-find name scope d s t e = elim (Result-cases (definition name s)) [
  | inl (x, found) ↦
      let same : x ≡ d = ground (arith, found) in
      definition-find name d s t.named (found ∙ ap ok same)
  | inr (inl (x, failed)) ↦ ground (arith, failed)
  | inr (inr failed) ↦ ground (arith, failed)
]

set_option-IsTyped :
    (name : Text) (scope : OptionScope) (v : Value) (s : OptionStore)
    → IsTyped s
    → IsTyped (set_option name scope v s).1
unfolding set_option validate_option_value
set_option-IsTyped name scope v s t = elim (Result-cases (defined_at name scope s)) [
  | inr (inl (x, failed)) ↦ rw (failed, set_option) t
  | inr (inr failed) ↦ rw (failed, set_option) t
  | inl (d, found) ↦ elim (Bool-cases (is_of_kind d.kind v)) [
    | inr wrong ↦ rw (found, set_option, wrong, validate_option_value) t
    | inl kind ↦
        rw (found, set_option, kind, validate_option_value)
          (write_at-IsTyped scope d v s t (defined_at-find name scope d s t found) kind)
  ]
]

reset_option-IsTyped :
    (name : Text) (scope : OptionScope) (s : OptionStore)
    → IsTyped s
    → IsTyped (reset_option name scope s).1
unfolding reset_option
reset_option-IsTyped name scope s t = elim (Result-cases (defined_at name scope s)) [
  | inr (inl (x, failed)) ↦ rw (failed, reset_option) t
  | inr (inr failed) ↦ rw (failed, reset_option) t
  | inl (d, found) ↦
      rw (found, reset_option)
        (reset_at-IsTyped scope d s t (defined_at-find name scope d s t found))
]

-- The stores that the methods lead to, from the empty one.
pub data Reached : OptionStore → Type 0 where
  start : (s : OptionStore) → s ≡ empty_store → Reached s
  defines : (d : OptionDefinition) (s : OptionStore) → Reached s → Reached (define d s).1
  sets :
      (name : Text) (scope : OptionScope) (v : Value) (s : OptionStore)
      → Reached s
      → Reached (set_option name scope v s).1
  resets :
      (name : Text) (scope : OptionScope) (s : OptionStore)
      → Reached s
      → Reached (reset_option name scope s).1

pub Reached-IsTyped : (s : OptionStore) → Reached s → IsTyped s
Reached-IsTyped s (Reached.start x e) = subst IsTyped (sym e) empty-IsTyped
Reached-IsTyped _ (Reached.defines d s r) = define-IsTyped d s (Reached-IsTyped s r)
Reached-IsTyped _ (Reached.sets name scope v s r) =
    set_option-IsTyped name scope v s (Reached-IsTyped s r)
Reached-IsTyped _ (Reached.resets name scope s r) =
    reset_option-IsTyped name scope s (Reached-IsTyped s r)
