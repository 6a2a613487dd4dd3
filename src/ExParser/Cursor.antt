-- ===== src/ExParser/Cursor.antt =====
-- src/ex_parser.rs: the cursor of an ExLineParser and its primitive methods.
use vim_script.Prelude.{
  ℕ, ◌+◌, ◌%◌, ◌^◌, Bool, true, false, ◌||◌, Option, none, some, [], ◌∷◌, Text, ltb, ◌==◌,
  if◌then◌else◌, len_utf8, is_ascii_digit, is_ascii_alphabetic,
}
use vim_script.Source.{SourceId, Span, Diagnostic, diagnostic_error}

-- What stays the same while a line is parsed: its source, the base of its spans and its length.
pub record Line : Type 0 where
  pub source_id : SourceId
  pub base : ℕ
  pub total : ℕ

pub record Cursor : Type 0 where
  pub rest : Text
  pub at : ℕ

pub data ExParseResult (A : Type 0) : Type 0 where
  parsed : A → ExParseResult A
  failed : Diagnostic → ExParseResult A

unfoldable pub peek : Text → Option ℕ
peek [] = none
peek (c ∷ s) = some c

unfoldable pub bump_over : Text → ℕ → Cursor
unfolding len_utf8
bump_over [] at = record { rest = []; at = at }
bump_over (c ∷ s) at = record { rest = s; at = at + len_utf8 c }

unfoldable pub bump : Cursor → Cursor
unfolding bump_over
bump c = bump_over c.rest c.at

abbrev pub is_char : ℕ → Option ℕ → Bool
is_char c none = false
is_char c (some d) = d == c

abbrev pub is_blank_char : ℕ → Bool
is_blank_char c = (c == b' ') || (c == b'\t')

-- The characters of a text up to the first that fails a test, and the cursor behind them.
unfoldable pub take_while : (ℕ → Bool) → Text → ℕ → Text × Cursor
unfolding len_utf8
take_while p [] at = ([], record { rest = []; at = at })
take_while p (c ∷ s) at =
    let more = take_while p s (at + len_utf8 c) in
    if p c then (c ∷ more.0, more.1) else ([], record { rest = c ∷ s; at = at })

unfoldable pub horizontal_space : Cursor → Cursor
unfolding take_while
horizontal_space c = (take_while is_blank_char c.rest c.at).1

unfoldable pub word : Cursor → Text × Cursor
unfolding take_while
word c = take_while is_ascii_alphabetic c.rest c.at

unfoldable pub digits : Cursor → Text × Cursor
unfolding take_while
digits c = take_while is_ascii_digit c.rest c.at

-- One character when it is the given one.
unfoldable pub accept : ℕ → Cursor → Bool × Cursor
unfolding peek bump
accept ch c = if is_char ch (peek c.rest) then (true, bump c) else (false, c)

-- The casts of `span` keep the lowest 32 bits.
unfoldable pub span_of : Line → ℕ → ℕ → Span
span_of l start end = record {
  source = l.source_id;
  start = (l.base + start) % 2 ^ 32;
  end = (l.base + end) % 2 ^ 32;
}

abbrev pub within : ℕ → ℕ → ℕ
within bound n = if ltb bound n then bound else n

unfoldable pub parse_error : Line → Text → Text → ℕ → ℕ → Diagnostic
unfolding span_of diagnostic_error
parse_error l code message start end =
    diagnostic_error code message (span_of l (within l.total start) (within l.total end))
