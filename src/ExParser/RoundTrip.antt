-- ===== src/ExParser/RoundTrip.antt =====
-- src/ex_parser.rs: a printed Ex command is parsed back.
use vim_script.Prelude.{
  ℕ, ◌+◌, ◌≤◌, ◌≡◌, refl, ◌∙◌, ap, Bool, true, false, Option, none, List, [], ◌∷◌, ◌++◌, map, Text,
  arith, text_eq, if◌then◌else◌, length, length-append, byte_length, len_utf8, is_ascii_digit,
  is_ascii_alphabetic, is_ascii_uppercase, all_by, show_ℕ, show_ℕ-IsDecimal, lt→ltb,
}
use vim_script.Source.{SourceId, Span}
use vim_script.Ast.{CommandModifier, CommandRange, ExCommand}
use vim_script.ExParser.Cursor.{
  Line, Cursor, ExParseResult, span_of, peek, bump, is_blank_char, horizontal_space, accept,
}
use vim_script.ExParser.Modifiers.{modifier_of, next_modifier, modifiers}
use vim_script.ExParser.Ranges.{parse_range}
use vim_script.ExParser.Parse.{
  ParsedExLine, parse_arguments, parse_banged, parse_named, parse_command, parse_after_range,
  skip_colon, parse_modified, parse_begun, parse_line, parse_ex,
}
use vim_script.ExParser.Scanning.{Stops, horizontal_space-Stops, horizontal_space-one, word-append}
use vim_script.ExParser.Printing.{
  LineModifier, modifier, show_modifier, show_modifiers, LineRange, command_range, show_separator,
  show_range, FitsU64, is_modifier_word, IsName, show_command, begins_blank, AreArguments,
}
use vim_script.ExParser.Opening.{
  opens, opens-Stops, opens-colon, name-opens, digits-opens, digits-Stops, modifiers-opens,
  modifiers_loop-show,
}
use vim_script.ExParser.RangeText.{parse_range-show}

-- The name, the bang and the arguments.
bang_text : Bool → Text → Text
bang_text bang arguments = if bang then b'!' ∷ b' ' ∷ arguments else b' ' ∷ arguments

arguments-Stops :
    (arguments : Text) → begins_blank arguments ≡ false → Stops is_blank_char arguments
arguments-Stops [] h = tt
arguments-Stops (c ∷ s) h = h

bang-Stops : (bang : Bool) (arguments : Text) → Stops is_ascii_alphabetic (bang_text bang arguments)
unfolding bang_text is_ascii_alphabetic is_ascii_uppercase
bang-Stops true arguments = refl
bang-Stops false arguments = refl

bang-accept :
    (bang : Bool) (arguments : Text) (at : ℕ)
    → begins_blank arguments ≡ false
    → (behind : Cursor) × (at' : ℕ) × (accept b'!'
          (record { rest = bang_text bang arguments; at = at })
        ≡ (bang, behind))
      × (horizontal_space behind ≡ record { rest = arguments; at = at' })
unfolding accept peek bump bang_text len_utf8
bang-accept true arguments at begins = (
  record { rest = b' ' ∷ arguments; at = at + 1 },
  at + 1 + 1,
  refl,
  horizontal_space-one arguments (at + 1) (arguments-Stops arguments begins),
)
bang-accept false arguments at begins = (
  record { rest = b' ' ∷ arguments; at = at },
  at + 1,
  refl,
  horizontal_space-one arguments at (arguments-Stops arguments begins),
)

abbrev printed : List CommandModifier → Option CommandRange → Text → Bool → Text → ExCommand
printed modifiers range name bang arguments = record {
  modifiers = modifiers;
  range = range;
  name = name;
  bang = bang;
  count = none;
  register = none;
  arguments = arguments;
}

parse_arguments-command :
    (l : Line) (start : ℕ) (span : Span) (modifiers : List CommandModifier)
    (range : Option CommandRange) (name : Text) (bang : Bool) (arguments : Text) (at : ℕ)
    → AreArguments arguments
    → (parse_arguments l start span modifiers range name bang
        (record { rest = arguments; at = at })).command
      ≡ printed modifiers range name bang arguments
unfolding parse_arguments
parse_arguments-command l start span modifiers range name bang arguments at a =
    rw (a.whole, a.trimmed) refl

parse_command-show :
    (l : Line) (start : ℕ) (modifiers : List CommandModifier) (range : Option CommandRange)
    (name : Text) (bang : Bool) (arguments : Text) (at : ℕ)
    → IsName name
    → AreArguments arguments
    → (p : ParsedExLine) × (parse_command l start modifiers range
          (record { rest = name ++ bang_text bang arguments; at = at })
        ≡ ExParseResult.parsed p)
      × (p.command ≡ printed modifiers range name bang arguments)
unfolding parse_command parse_named parse_banged
parse_command-show l start modifiers range name bang arguments at n a =
    let (behind, at', accepted, spaced) =
      bang-accept bang arguments (at + byte_length name) a.begins in
    let scanned =
      word-append name (bang_text bang arguments) at n.letters (bang-Stops bang arguments) in
    let span = span_of l at (at + byte_length name) in
    (
      parse_arguments l start span modifiers range name bang
          (record { rest = arguments; at = at' }),
      rw (scanned, parse_named, lt→ltb 0 (length name) n.filled, accepted, parse_banged, spaced)
          refl,
      parse_arguments-command l start span modifiers range name bang arguments at' a,
    )

modifier_of-name :
    (name : Text) (c : Cursor) → is_modifier_word name ≡ false → modifier_of name c ≡ none
unfolding modifier_of is_modifier_word
modifier_of-name name c h = ground arith

no_word :
    (s : Text) (at : ℕ)
    → Stops is_ascii_alphabetic s
    → next_modifier (record { rest = s; at = at }) ≡ none
unfolding next_modifier modifier_of text_eq all_by
no_word s at h = rw (word-append [] s at refl h) refl

whole : (s : Text) (at : ℕ) → next_modifier (record { rest = b'%' ∷ s; at = at }) ≡ none
unfolding is_ascii_alphabetic is_ascii_uppercase
whole s at = no_word (b'%' ∷ s) at refl

next_modifier-tail :
    (range : LineRange) (name : Text) (bang : Bool) (arguments : Text) (at : ℕ)
    → IsName name
    → next_modifier (record { rest = show_range range (name ++ bang_text bang arguments); at = at })
      ≡ none
unfolding next_modifier show_range
next_modifier-tail LineRange.no_range name bang arguments at n =
    rw (word-append name (bang_text bang arguments) at n.letters (bang-Stops bang arguments)) (
      modifier_of-name name (record { rest = bang_text bang arguments; at = at + byte_length name })
        n.command)
next_modifier-tail LineRange.whole_file name bang arguments at n =
    whole (name ++ bang_text bang arguments) at
next_modifier-tail (LineRange.one k) name bang arguments at n =
    let (digit, some_digit, value) = show_ℕ-IsDecimal k in
    no_word (show_ℕ k ++ (name ++ bang_text bang arguments)) at
      (digits-Stops (show_ℕ k) (name ++ bang_text bang arguments) digit some_digit)
next_modifier-tail (LineRange.two k separator m) name bang arguments at n =
    let (digit, some_digit, value) = show_ℕ-IsDecimal k in
    let rest = show_separator separator ∷ (show_ℕ m ++ (name ++ bang_text bang arguments)) in
    no_word (show_ℕ k ++ rest) at (digits-Stops (show_ℕ k) rest digit some_digit)

percent_opens : (s : Text) → opens (b'%' ∷ s) ≡ true
unfolding opens is_ascii_alphabetic is_ascii_uppercase is_ascii_digit
percent_opens s = refl

tail-opens :
    (range : LineRange) (name : Text) (t : Text)
    → IsName name
    → opens (show_range range (name ++ t)) ≡ true
unfolding show_range opens
tail-opens LineRange.no_range name t n = name-opens name t n.letters n.filled
tail-opens LineRange.whole_file name t n = percent_opens (name ++ t)
tail-opens (LineRange.one k) name t n =
    let (digit, some_digit, value) = show_ℕ-IsDecimal k in
    digits-opens (show_ℕ k) (name ++ t) digit some_digit
tail-opens (LineRange.two k separator m) name t n =
    let (digit, some_digit, value) = show_ℕ-IsDecimal k in
    digits-opens (show_ℕ k) (show_separator separator ∷ (show_ℕ m ++ (name ++ t))) digit some_digit

modifiers-length :
    (ms : List LineModifier) (tail : Text) → length ms ≤ length (show_modifiers ms tail)
unfolding show_modifiers
modifiers-length [] tail = omega arith
modifiers-length (m ∷ ms) tail = omega (
  arith,
  length-append (show_modifier m) (b' ' ∷ show_modifiers ms tail),
  modifiers-length ms tail,
)

skip_colon-opens :
    (s : Text) (at : ℕ)
    → opens s ≡ true
    → skip_colon (record { rest = s; at = at }) ≡ record { rest = s; at = at }
unfolding skip_colon accept
skip_colon-opens s at h =
    let space = horizontal_space-Stops s at (opens-Stops s h) in
    rw (space, skip_colon, accept, opens-colon s h) refl

-- The steps of `parse`, one after the other.
parse_line-steps :
    (l : Line) (c begun at_range at_name : Cursor) (ms : List CommandModifier)
    (range : Option CommandRange) (r : ExParseResult ParsedExLine)
    → skip_colon c ≡ begun
    → modifiers begun ≡ (ms, at_range)
    → parse_range l at_range ≡ ExParseResult.parsed (range, at_name)
    → parse_command l begun.at ms range (horizontal_space at_name) ≡ r
    → parse_line l c ≡ r
unfolding parse_line parse_begun parse_modified parse_after_range
parse_line-steps l c begun at_range at_name ms range r e1 e2 e3 e4 =
    ap (parse_begun l) e1
    ∙ (ap (parse_modified l begun.at) e2 ∙ (ap (parse_after_range l begun.at ms) e3 ∙ e4))

-- A command that is printed as its modifiers, its range of line numbers, its name, a `!` and its
-- arguments is parsed back, when its name is of letters and is no modifier, its lines fit a `u64`, and its
-- arguments have no spaces round them and no `|` that ends a command.
pub parse_ex-show :
    (id : SourceId) (base : ℕ) (ms : List LineModifier) (range : LineRange) (name : Text)
    (bang : Bool) (arguments : Text)
    → FitsU64 range
    → IsName name
    → AreArguments arguments
    → (p : ParsedExLine) × (parse_ex id (show_command ms range name bang arguments) base
        ≡ ExParseResult.parsed p)
      × (p.command ≡ record {
        modifiers = map modifier ms;
        range = command_range range;
        name = name;
        bang = bang;
        count = none;
        register = none;
        arguments = arguments;
      })
unfolding parse_ex modifiers show_command bang_text
parse_ex-show id base ms range name bang arguments fits n a =
    let rest = bang_text bang arguments in
    let tail = show_range range (name ++ rest) in
    let s = show_modifiers ms tail in
    let l : Line = record { source_id = id; base = base; total = byte_length s } in
    let begun = skip_colon-opens s 0 (modifiers-opens ms tail (tail-opens range name rest n)) in
    let (at_range, modified) =
      modifiers_loop-show ms tail 0 (length s) (modifiers-length ms tail)
        (tail-opens range name rest n) (λ at. next_modifier-tail range name bang arguments at n) in
    let (at_name, ranged) = parse_range-show l range name rest at_range fits n.letters n.filled in
    let spaced =
      horizontal_space-Stops (name ++ rest) at_name
        (opens-Stops (name ++ rest) (name-opens name rest n.letters n.filled)) in
    let (p, e, command) =
      parse_command-show l 0 (map modifier ms) (command_range range) name bang arguments at_name n
        a in
    (
      p,
      parse_line-steps l (record { rest = s; at = 0 }) (record { rest = s; at = 0 })
          (record { rest = tail; at = at_range }) (record { rest = name ++ rest; at = at_name })
          (map modifier ms) (command_range range) (ExParseResult.parsed p) begun modified ranged
          (rw spaced e),
      command,
    )
