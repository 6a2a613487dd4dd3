-- ===== src/ExParser/Tests.antt =====
-- src/ex_parser.rs: lines that are parsed, and the theorem at one of them.
use vim_script.Prelude.{
  ◌≡◌, refl, true, none, List, [], ◌∷◌, map, text, text_eq, arith, all_by, is_ascii_alphabetic,
  is_ascii_uppercase, trim_end, trim_end_by, cons_unless, is_whitespace,
}
use vim_script.Source.{SourceId}
use vim_script.Ast.{RangeSeparator}
use vim_script.ExParser.Cursor.{ExParseResult}
use vim_script.ExParser.Parse.{ParsedExLine, find_command_separator, parse_ex}
use vim_script.ExParser.Printing.{
  LineModifier, modifier, LineRange, command_range, is_modifier_word, IsName, show_command,
  AreArguments,
}
use vim_script.ExParser.RoundTrip.{parse_ex-show}

abbrev script_id : SourceId
script_id = record { index = 3 }

write-IsName : IsName (text "write")
unfolding all_by is_ascii_alphabetic is_ascii_uppercase is_modifier_word text_eq
write-IsName = record { letters = refl; filled = omega arith; command = refl }

file-AreArguments : AreArguments (text "file name.txt")
unfolding trim_end trim_end_by cons_unless is_whitespace find_command_separator
file-AreArguments = record { begins = refl; trimmed = refl; whole = refl }

abbrev given : List LineModifier
given = LineModifier.silent true ∷ LineModifier.keep_jumps ∷ []

parse_ex-show_example :
    (p : ParsedExLine) × (parse_ex script_id
        (show_command given
          (LineRange.two 10 RangeSeparator.comma 20)
          (text "write")
          true
          (text "file name.txt"))
        100
      ≡ ExParseResult.parsed p)
    × (p.command ≡ record {
      modifiers = map modifier given;
      range = command_range (LineRange.two 10 RangeSeparator.comma 20);
      name = text "write";
      bang = true;
      count = none;
      register = none;
      arguments = text "file name.txt";
    })
parse_ex-show_example =
    parse_ex-show script_id 100 given (LineRange.two 10 RangeSeparator.comma 20) (text "write") true
      (text "file name.txt") (omega arith, omega arith) write-IsName file-AreArguments
