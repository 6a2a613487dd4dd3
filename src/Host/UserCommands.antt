-- ===== src/Host/UserCommands.antt =====
-- src/host.rs: UserCommand, parsed from `:command` and expanded where it is used.
use vim_script.Prelude.{
  ℕ, zero, suc, Bool, true, false, not, ◌&&◌, ◌||◌, Option, none, some, [], ◌∷◌, ◌++◌, Text, text,
  text_eq, strip_prefix, ◌==◌, leb, if◌then◌else◌, length, is_some, show_ℕ, trim, trim_start,
  is_ascii_uppercase, all_by,
}
use vim_script.Ast.{Address, CommandRange, ExCommand}
use vim_script.ExParser.Cursor.{ExParseResult}
use vim_script.ExParser.Parse.{ParsedExLine, parse_ex}
use vim_script.Runtime.Error.{RuntimeErrorKind, RuntimeError, Result, ok, err, panic, coded}
use vim_script.Runtime.Builtins.Strings.{split_whitespace}
use vim_script.Host.Words.{word_at, replace_all, is_ascii_alphanumeric}

pub record UserCommandAttributes : Type 0 where
  pub nargs : Option Text
  pub complete : Option Text
  pub range : Bool
  pub count : Bool
  pub bang : Bool
  pub bar : Bool
  pub register : Bool

pub record UserCommand : Type 0 where
  pub name : Text
  pub replacement : Text
  pub attributes : UserCommandAttributes

unfoldable pub invalid_command : Text → Text → RuntimeError
invalid_command code message = coded code RuntimeErrorKind.invalid_command message

unfoldable pub is_nargs : Text → Bool
is_nargs s =
    text_eq s (text "0")
    || text_eq s (text "1")
    || text_eq s (text "?")
    || text_eq s (text "*")
    || text_eq s (text "+")

unfoldable pub nargs_attribute : Text → UserCommandAttributes → Result UserCommandAttributes
unfolding is_nargs invalid_command
nargs_attribute value a =
    if is_nargs value
    then ok (record a { nargs = some value })
    else err (invalid_command (text "E176") (text "invalid -nargs value: " ++ value))

unfoldable pub complete_attribute :
    Text → Option Text → UserCommandAttributes → Result UserCommandAttributes
unfolding invalid_command
complete_attribute attribute (some value) a = ok (record a { complete = some value })
complete_attribute attribute none a =
    err (invalid_command (text "E181") (text "invalid user command attribute: " ++ attribute))

unfoldable pub valued_attribute :
    Text → Option Text → UserCommandAttributes → Result UserCommandAttributes
unfolding nargs_attribute complete_attribute
valued_attribute attribute (some value) a = nargs_attribute value a
valued_attribute attribute none a =
    complete_attribute attribute (strip_prefix attribute (text "-complete=")) a

unfoldable pub set_attribute : Text → UserCommandAttributes → Result UserCommandAttributes
unfolding valued_attribute
set_attribute w a =
    if text_eq w (text "-bang")
    then ok (record a { bang = true })
    else if text_eq w (text "-bar")
    then ok (record a { bar = true })
    else if text_eq w (text "-range") || text_eq w (text "-range=%")
    then ok (record a { range = true })
    else if text_eq w (text "-count") || text_eq w (text "-count=0")
    then ok (record a { count = true })
    else if text_eq w (text "-register")
    then ok (record a { register = true })
    else valued_attribute w (strip_prefix w (text "-nargs=")) a

-- A letter or digit of ASCII is `is_uppercase` when it is one of A to Z.
unfoldable pub valid_name : Text → Bool
valid_name [] = false
valid_name (c ∷ s) = is_ascii_uppercase c && all_by is_ascii_alphanumeric (c ∷ s)

unfoldable pub with_replacement : Text → Text → UserCommandAttributes → Result UserCommand
unfolding invalid_command
with_replacement name replacement a = elim replacement [
  | [] ↦ err (invalid_command (text "E184") (text "user command replacement is required"))
  | c ∷ s ↦ ok (record { name = name; replacement = c ∷ s; attributes = a })
]

-- What follows the attributes: the name and the replacement.
unfoldable pub parse_name : Option (Text × Text) → UserCommandAttributes → Result UserCommand
unfolding valid_name with_replacement invalid_command
parse_name none a = err (invalid_command (text "E182") (text "user command name is required"))
parse_name (some (name, rest)) a =
    if valid_name name
    then with_replacement name (trim_start rest) a
    else err (
        invalid_command (text "E183")
          (text "user-defined commands must start with an uppercase letter"))

unfoldable pub starts_dash : Text → Bool
starts_dash [] = false
starts_dash (c ∷ s) = c == b'-'

-- The loop over the attributes, with as many rounds as the fuel; each takes a word.
unfoldable pub parse_attributes : (fuel : ℕ) → UserCommandAttributes → Text → Result UserCommand
unfolding parse_name set_attribute starts_dash word_at
parse_attributes zero a s = parse_name (word_at s) a
parse_attributes (suc fuel) a s = elim (word_at s) [
  | none ↦ parse_name none a
  | some (w, rest) ↦
      let after : Result UserCommand = elim (set_attribute w a) [
        | ok a' ↦ parse_attributes fuel a' rest
        | err e ↦ err e
        | panic ↦ panic
      ] in
      if starts_dash w then after else parse_name (some (w, rest)) a
]

unfoldable pub no_attributes : UserCommandAttributes
no_attributes = record {
  nargs = some (text "0");
  complete = none;
  range = false;
  count = false;
  bang = false;
  bar = false;
  register = false;
}

unfoldable pub parse_user_command : ExCommand → Result UserCommand
unfolding parse_attributes no_attributes
parse_user_command command =
    parse_attributes (length command.arguments) no_attributes command.arguments

unfoldable pub line_number : Address → ℕ
line_number (Address.line n) = n
line_number _ = 0

unfoldable pub range_lines : Option CommandRange → ℕ × ℕ
unfolding line_number
range_lines none = (0, 0)
range_lines (some r) = elim r.end [
  | none ↦ (line_number r.start, line_number r.start)
  | some final ↦ (line_number r.start, line_number final)
]

unfoldable pub command_lines : ExCommand → ℕ × ℕ
unfolding range_lines
command_lines command = range_lines command.range

unfoldable pub takes_arguments : Text → ℕ → Bool
takes_arguments nargs count =
    if text_eq nargs (text "0")
    then count == 0
    else if text_eq nargs (text "1")
    then count == 1
    else if text_eq nargs (text "?")
    then leb count 1
    else if text_eq nargs (text "*")
    then true
    else if text_eq nargs (text "+")
    then leb 1 count
    else false

unfoldable pub nargs_or_zero : Option Text → Text
nargs_or_zero none = text "0"
nargs_or_zero (some s) = s

-- The first test that a use of a command fails.
unfoldable pub expansion_error : UserCommand → ExCommand → Option RuntimeError
unfolding takes_arguments nargs_or_zero invalid_command split_whitespace
expansion_error u invocation =
    if not (
      takes_arguments (nargs_or_zero u.attributes.nargs)
        (length (split_whitespace (trim invocation.arguments))))
    then some (
        coded (text "E471") RuntimeErrorKind.arity_error
          (text "invalid arguments for user command " ++ u.name))
    else if invocation.bang && not u.attributes.bang
    then some (invalid_command (text "E477") (u.name ++ text " does not accept !"))
    else if is_some invocation.range && not u.attributes.range
    then some (invalid_command (text "E481") (u.name ++ text " does not accept a range"))
    else if is_some invocation.register && not u.attributes.register
    then some (invalid_command (text "E850") (u.name ++ text " does not accept a register"))
    else none

unfoldable pub number_or_zero : Option ℕ → ℕ
number_or_zero none = 0
number_or_zero (some n) = n

unfoldable pub register_text : Option ℕ → Text
register_text none = []
register_text (some c) = c ∷ []

unfoldable pub expanded_text : UserCommand → ExCommand → Text
unfolding replace_all command_lines number_or_zero register_text
expanded_text u invocation =
    let arguments = trim invocation.arguments in
    let quoted = b'\'' ∷ (replace_all (text "'") (text "''") arguments ++ b'\'' ∷ []) in
    let lines = command_lines invocation in
    let s = replace_all (text "<q-args>") quoted u.replacement in
    let s = replace_all (text "<args>") arguments s in
    let s = replace_all (text "<bang>") (if invocation.bang then text "!" else []) s in
    let s = replace_all (text "<count>") (show_ℕ (number_or_zero invocation.count)) s in
    let s = replace_all (text "<reg>") (register_text invocation.register) s in
    let s = replace_all (text "<line1>") (show_ℕ lines.0) s in
    let s = replace_all (text "<line2>") (show_ℕ lines.1) s in
    replace_all (text "<lt>") (text "<") s

-- An Ex command in place of the line that has it, or the error E488 with the parser's message.
unfoldable pub command_of : ExParseResult ParsedExLine → Result ExCommand
unfolding invalid_command
command_of (ExParseResult.parsed p) = ok p.command
command_of (ExParseResult.failed d) = err (invalid_command (text "E488") d.message)

unfoldable pub expand : UserCommand → ExCommand → Result ExCommand
unfolding expansion_error expanded_text command_of parse_ex
expand u invocation = elim (expansion_error u invocation) [
  | some e ↦ err e
  | none ↦ command_of (parse_ex (record { index = 0 }) (expanded_text u invocation) 0)
]
