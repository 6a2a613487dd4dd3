-- ===== src/ExParser/Parse.antt =====
-- src/ex_parser.rs: parse and find_command_separator.
use vim_script.Prelude.{
  ℕ, ◌+◌, Bool, true, false, Option, none, some, List, [], ◌∷◌, Text, text, ltb, ◌==◌,
  if◌then◌else◌, length, byte_length, trim_end,
}
use vim_script.Source.{SourceId, Span}
use vim_script.Ast.{CommandModifier, CommandRange, ExCommand}
use vim_script.ExParser.Cursor.{
  Line, Cursor, ExParseResult, is_blank_char, take_while, horizontal_space, word, accept, span_of,
  parse_error,
}
use vim_script.ExParser.Modifiers.{modifiers}
use vim_script.ExParser.Ranges.{parse_range}

pub record ParsedExLine : Type 0 where
  pub command : ExCommand
  pub span : Span
  pub command_span : Span
  pub arguments_span : Span
  pub raw_arguments : Text
  pub next_command : Option Span

-- The text before the first `|` that no backslash stands before, and the text behind it; where
-- there is none, the whole text.
unfoldable pub find_command_separator : (escaped : Bool) → Text → Text × Option Text
find_command_separator escaped [] = ([], none)
find_command_separator escaped (c ∷ s) =
    let plain = find_command_separator false s in
    let after = find_command_separator true s in
    if escaped
    then (c ∷ plain.0, plain.1)
    else if c == b'\\'
    then (c ∷ after.0, after.1)
    else if c == b'|'
    then ([], some s)
    else (c ∷ plain.0, plain.1)

unfoldable pub skip_colon : Cursor → Cursor
unfolding accept horizontal_space
skip_colon c =
    let spaced = horizontal_space c in
    let (colon, after) = accept b':' spaced in if colon then horizontal_space after else spaced

module _ (l : Line) where
  unfoldable pub next_command_span : ℕ → Option Text → Option Span
  unfolding take_while span_of
  next_command_span separator none = none
  next_command_span separator (some s) =
      let start = (take_while is_blank_char s (separator + 1)).1.at in
      if ltb start l.total then some (span_of l start l.total) else none

  -- The rest of `parse` from the arguments on.
  unfoldable pub parse_arguments :
      ℕ → Span → List CommandModifier → Option CommandRange → Text → Bool → Cursor → ParsedExLine
  unfolding find_command_separator trim_end span_of next_command_span
  parse_arguments start command_span modifiers range name bang c =
      let (slice, after) = find_command_separator false c.rest in
      let raw = trim_end slice in
      record {
        command = record {
          modifiers = modifiers;
          range = range;
          name = name;
          bang = bang;
          count = none;
          register = none;
          arguments = raw;
        };
        span = span_of l start l.total;
        command_span = command_span;
        arguments_span = span_of l c.at (c.at + byte_length raw);
        raw_arguments = raw;
        next_command = next_command_span (c.at + byte_length slice) after;
      }

  unfoldable pub parse_banged :
      ℕ → Span → List CommandModifier → Option CommandRange → Text → Bool × Cursor → ParsedExLine
  unfolding parse_arguments horizontal_space
  parse_banged start command_span modifiers range name (bang, behind) =
      parse_arguments start command_span modifiers range name bang (horizontal_space behind)

  unfoldable pub parse_named :
      ℕ
      → List CommandModifier
      → Option CommandRange
      → ℕ
      → Text × Cursor
      → ExParseResult ParsedExLine
  unfolding parse_banged accept parse_error span_of
  parse_named start modifiers range at (name, after) =
      if ltb 0 (length name)
      then ExParseResult.parsed
          (parse_banged start (span_of l at after.at) modifiers range name (accept b'!' after))
      else ExParseResult.failed
          (parse_error l (text "X001") (text "expected Ex command name") after.at (after.at + 1))

  unfoldable pub parse_command :
      ℕ → List CommandModifier → Option CommandRange → Cursor → ExParseResult ParsedExLine
  unfolding word parse_named
  parse_command start modifiers range c = parse_named start modifiers range c.at (word c)

  unfoldable pub parse_after_range :
      ℕ
      → List CommandModifier
      → ExParseResult (Option CommandRange × Cursor)
      → ExParseResult ParsedExLine
  unfolding parse_command horizontal_space
  parse_after_range start modifiers (ExParseResult.failed d) = ExParseResult.failed d
  parse_after_range start modifiers (ExParseResult.parsed (range, c)) =
      parse_command start modifiers range (horizontal_space c)

  unfoldable pub parse_modified : ℕ → List CommandModifier × Cursor → ExParseResult ParsedExLine
  unfolding parse_range parse_after_range
  parse_modified start (modifiers, after) = parse_after_range start modifiers (parse_range l after)

  unfoldable pub parse_begun : Cursor → ExParseResult ParsedExLine
  unfolding modifiers parse_modified
  parse_begun begun = parse_modified begun.at (modifiers begun)

  unfoldable pub parse_line : Cursor → ExParseResult ParsedExLine
  unfolding skip_colon parse_begun
  parse_line c = parse_begun (skip_colon c)

-- `ExLineParser::new` and `parse`
unfoldable pub parse_ex : SourceId → Text → ℕ → ExParseResult ParsedExLine
unfolding parse_line
parse_ex source_id source base =
    parse_line (record { source_id = source_id; base = base; total = byte_length source })
      (record { rest = source; at = 0 })
