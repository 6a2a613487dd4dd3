-- ===== src/ExParser/Printing.antt =====
-- src/ex_parser.rs: Ex commands as the lines that they are parsed from.
use vim_script.Prelude.{
  ℕ, ◌<◌, ◌^◌, ◌≡◌, Bool, true, false, ◌||◌, Option, none, some, List, [], ◌∷◌, ◌++◌, Text, text,
  text_eq, if◌then◌else◌, show_ℕ, length, trim_end, all_by, is_ascii_alphabetic,
}
use vim_script.Ast.{CommandModifier, Address, RangeSeparator, CommandRange}
use vim_script.ExParser.Cursor.{is_blank_char}
use vim_script.ExParser.Parse.{find_command_separator}

-- The modifiers that a line can hold.
pub data LineModifier : Type 0 where
  silent : Bool → LineModifier
  keep_jumps keep_alt keep_marks no_autocmd sandbox vertical verbose tab : LineModifier

unfoldable pub modifier : LineModifier → CommandModifier
modifier (LineModifier.silent errors) = CommandModifier.silent errors
modifier LineModifier.keep_jumps = CommandModifier.keep_jumps
modifier LineModifier.keep_alt = CommandModifier.keep_alt
modifier LineModifier.keep_marks = CommandModifier.keep_marks
modifier LineModifier.no_autocmd = CommandModifier.no_autocmd
modifier LineModifier.sandbox = CommandModifier.sandbox
modifier LineModifier.vertical = CommandModifier.vertical
modifier LineModifier.verbose = CommandModifier.verbose 1
modifier LineModifier.tab = CommandModifier.tab none

unfoldable pub show_modifier : LineModifier → Text
show_modifier (LineModifier.silent true) = text "silent!"
show_modifier (LineModifier.silent false) = text "silent"
show_modifier LineModifier.keep_jumps = text "keepjumps"
show_modifier LineModifier.keep_alt = text "keepalt"
show_modifier LineModifier.keep_marks = text "keepmarks"
show_modifier LineModifier.no_autocmd = text "noautocmd"
show_modifier LineModifier.sandbox = text "sandbox"
show_modifier LineModifier.vertical = text "vertical"
show_modifier LineModifier.verbose = text "verbose"
show_modifier LineModifier.tab = text "tab"

unfoldable pub show_modifiers : List LineModifier → Text → Text
unfolding show_modifier
show_modifiers [] rest = rest
show_modifiers (m ∷ ms) rest = show_modifier m ++ b' ' ∷ show_modifiers ms rest

-- Lines by their numbers, or the whole file.
pub data LineRange : Type 0 where
  no_range whole_file : LineRange
  one : ℕ → LineRange
  two : ℕ → RangeSeparator → ℕ → LineRange

unfoldable pub command_range : LineRange → Option CommandRange
command_range LineRange.no_range = none
command_range LineRange.whole_file =
    some (record { start = Address.whole_file; end = none; separator = none })
command_range (LineRange.one n) =
    some (record { start = Address.line n; end = none; separator = none })
command_range (LineRange.two n separator m) =
    some
      (record { start = Address.line n; end = some (Address.line m); separator = some separator })

unfoldable pub show_separator : RangeSeparator → ℕ
show_separator RangeSeparator.comma = b','
show_separator RangeSeparator.semicolon = b';'

unfoldable pub show_range : LineRange → Text → Text
unfolding show_separator
show_range LineRange.no_range rest = rest
show_range LineRange.whole_file rest = b'%' ∷ rest
show_range (LineRange.one n) rest = show_ℕ n ++ rest
show_range (LineRange.two n separator m) rest =
    show_ℕ n ++ (show_separator separator ∷ (show_ℕ m ++ rest))

abbrev pub FitsU64 : LineRange → Type 0
FitsU64 LineRange.no_range = Unit {0}
FitsU64 LineRange.whole_file = Unit {0}
FitsU64 (LineRange.one n) = n < 2 ^ 64
FitsU64 (LineRange.two n separator m) = (n < 2 ^ 64) × (m < 2 ^ 64)

unfoldable pub is_modifier_word : Text → Bool
is_modifier_word w =
    text_eq w (text "silent")
    || text_eq w (text "keepjumps")
    || text_eq w (text "keepalt")
    || text_eq w (text "keepmarks")
    || text_eq w (text "noautocmd")
    || text_eq w (text "sandbox")
    || text_eq w (text "vertical")
    || text_eq w (text "verbose")
    || text_eq w (text "tab")

-- A name of letters that is no modifier.
pub record IsName (name : Text) : Type 0 where
  pub letters : all_by is_ascii_alphabetic name ≡ true
  pub filled : 0 < length name
  pub command : is_modifier_word name ≡ false

unfoldable pub show_command : List LineModifier → LineRange → Text → Bool → Text → Text
unfolding show_modifiers show_range
show_command ms range name bang arguments =
    show_modifiers ms
      (show_range range (name ++ (if bang then b'!' ∷ b' ' ∷ arguments else b' ' ∷ arguments)))

abbrev pub begins_blank : Text → Bool
begins_blank [] = false
begins_blank (c ∷ s) = is_blank_char c

-- Arguments without spaces round them and with no `|` that ends the command.
pub record AreArguments (arguments : Text) : Type 0 where
  pub begins : begins_blank arguments ≡ false
  pub trimmed : trim_end arguments ≡ arguments
  pub whole : find_command_separator false arguments ≡ (arguments, none)
