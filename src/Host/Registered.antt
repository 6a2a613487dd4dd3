-- ===== src/Host/Registered.antt =====
-- src/host.rs: which user commands a host runtime has, after any of the commands that it handles.
use vim_script.Prelude.{
  ◌≡◌, refl, sym, ◌∙◌, inl, inr, ℕ, zero, suc, ◌<◌, true, Option, none, some, List, [], ◌∷◌, Text,
  text_eq, text_eq_iff, find, store, erase, arith, Option-cases, Bool-cases, length, trim_start,
}
use vim_script.Ast.{ExCommand}
use vim_script.Runtime.Error.{ok, err, panic, Result-cases}
use vim_script.Host.Words.{word_at}
use vim_script.Host.UserCommands.{
  UserCommandAttributes, UserCommand, is_nargs, nargs_attribute, complete_attribute,
  valued_attribute, set_attribute, valid_name, with_replacement, parse_name, starts_dash,
  parse_attributes, no_attributes, parse_user_command, nargs_or_zero,
}

abbrev NargsOk : UserCommandAttributes → Type 0
NargsOk a = is_nargs (nargs_or_zero a.nargs) ≡ true

-- What parsing checks of a user command.
abbrev pub IsChecked : UserCommand → Type 0
IsChecked u =
    (valid_name u.name ≡ true)
    × (0 < length u.replacement)
    × (is_nargs (nargs_or_zero u.attributes.nargs) ≡ true)

set_attribute-NargsOk :
    (w : Text) (a a' : UserCommandAttributes) → set_attribute w a ≡ ok a' → NargsOk a → NargsOk a'
unfolding set_attribute valued_attribute nargs_attribute complete_attribute nargs_or_zero
set_attribute-NargsOk w a a' e h = ground (arith, e, h)

with_replacement-IsChecked :
    (name rest : Text) (a : UserCommandAttributes) (u : UserCommand)
    → with_replacement name rest a ≡ ok u
    → valid_name name ≡ true
    → NargsOk a
    → IsChecked u
unfolding with_replacement
with_replacement-IsChecked name [] a u e v h = ground (arith, e)
with_replacement-IsChecked name (c ∷ s) a u e v h = ground (arith, e, v, h)

parse_name-IsChecked :
    (o : Option (Text × Text)) (a : UserCommandAttributes) (u : UserCommand)
    → parse_name o a ≡ ok u
    → NargsOk a
    → IsChecked u
unfolding parse_name
parse_name-IsChecked none a u e h = ground (arith, e)
parse_name-IsChecked (some (name, rest)) a u e h =
    ground (arith, e, h, with_replacement-IsChecked name (trim_start rest) a u)

parse_attributes-IsChecked :
    (fuel : ℕ) (a : UserCommandAttributes) (s : Text) (u : UserCommand)
    → parse_attributes fuel a s ≡ ok u
    → NargsOk a
    → IsChecked u
unfolding parse_attributes
parse_attributes-IsChecked zero a s u e h = parse_name-IsChecked (word_at s) a u e h
parse_attributes-IsChecked (suc fuel) a s u e h = elim (Option-cases (word_at s)) [
  | inl missing ↦ ground (arith, e, missing, parse_name-IsChecked none a u)
  | inr ((w, rest), found) ↦ elim (Bool-cases (starts_dash w)) [
    | inr other ↦
        let named : parse_name (some (w, rest)) a ≡ ok u =
          sym (rw (found, parse_attributes, other) refl) ∙ e in
        parse_name-IsChecked (some (w, rest)) a u named h
    | inl dash ↦ elim (Result-cases (set_attribute w a)) [
      | inl (a', set) ↦
          let more : parse_attributes fuel a' rest ≡ ok u =
            sym (rw (found, parse_attributes, dash, set) refl) ∙ e in
          parse_attributes-IsChecked fuel a' rest u more (set_attribute-NargsOk w a a' set h)
      | inr (inl (f, failed)) ↦
          let bad : err f ≡ ok u = sym (rw (found, parse_attributes, dash, failed) refl) ∙ e in
          ground (arith, bad)
      | inr (inr aborts) ↦
          let bad : panic ≡ ok u = sym (rw (found, parse_attributes, dash, aborts) refl) ∙ e in
          ground (arith, bad)
    ]
  ]
]

pub parse_user_command-IsChecked :
    (command : ExCommand) (u : UserCommand) → parse_user_command command ≡ ok u → IsChecked u
unfolding parse_user_command no_attributes is_nargs text_eq nargs_or_zero
parse_user_command-IsChecked command u e =
    parse_attributes-IsChecked (length command.arguments) no_attributes command.arguments u e refl

-- Each user command stands under its own name, and is one that parsing has checked.
unfoldable pub AllChecked : List (Text × UserCommand) → Type 0
AllChecked [] = Unit {0}
AllChecked ((name, u) ∷ rest) = ((u.name ≡ name) × IsChecked u) × AllChecked rest

pub store-AllChecked :
    (u : UserCommand) (m : List (Text × UserCommand))
    → IsChecked u
    → AllChecked m
    → AllChecked (store text_eq u.name u m)
unfolding store AllChecked
store-AllChecked u [] checked all = ((refl, checked), tt)
store-AllChecked u ((k, w) ∷ m) checked (first, all) = elim (Bool-cases (text_eq k u.name)) [
  | inl same ↦ rw same ((refl, checked), all)
  | inr other ↦ rw other (first, store-AllChecked u m checked all)
]

pub erase-AllChecked :
    (name : Text) (m : List (Text × UserCommand)) → AllChecked m → AllChecked (erase text_eq name m)
unfolding erase AllChecked
erase-AllChecked name [] all = tt
erase-AllChecked name ((k, w) ∷ m) (first, all) = elim (Bool-cases (text_eq k name)) [
  | inl same ↦ rw same (erase-AllChecked name m all)
  | inr other ↦ rw other (first, erase-AllChecked name m all)
]

pub find-AllChecked :
    (name : Text) (m : List (Text × UserCommand)) (u : UserCommand)
    → AllChecked m
    → find text_eq name m ≡ some u
    → (u.name ≡ name) × IsChecked u
unfolding find AllChecked
find-AllChecked name [] u all e = ground (arith, e)
find-AllChecked name ((k, w) ∷ m) u (first, all) e = elim (Bool-cases (text_eq k name)) [
  | inl same ↦ ground (arith, same, (text_eq_iff k name).0 same, e, first)
  | inr other ↦ find-AllChecked name m u all (sym (rw other refl) ∙ e)
]
