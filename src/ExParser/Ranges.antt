-- ===== src/ExParser/Ranges.antt =====
-- src/ex_parser.rs: address and range.
use vim_script.Prelude.{
  digits_value, ℕ, zero, suc, ◌+◌, ◌^◌, Bool, true, false, ◌&&◌, ◌||◌, Option, none, some, [], ◌∷◌,
  Text, text, ltb, ◌==◌, if◌then◌else◌, pos, neg_ℤ, length, len_utf8, is_ascii_digit,
}
use vim_script.Ast.{Address, RangeSeparator, CommandRange}
use vim_script.ExParser.Cursor.{
  Line, Cursor, ExParseResult, peek, bump, is_char, horizontal_space, digits, parse_error,
}

-- `parse` of digits as a number below a bound
unfoldable pub parse_below : ℕ → Text → Option ℕ
unfolding digits_value
parse_below bound s =
    if ltb 0 (length s) && ltb (digits_value 0 s) bound then some (digits_value 0 s) else none

-- The pattern of a search up to its delimiter; a backslash takes the next character with it.
unfoldable pub pattern_until : ℕ → Text → ℕ → Text × Cursor
unfolding len_utf8
pattern_until d [] at = ([], record { rest = []; at = at })
pattern_until d (c ∷ []) at =
    if c == d
    then ([], record { rest = c ∷ []; at = at })
    else (c ∷ [], record { rest = []; at = at + len_utf8 c })
pattern_until d (c ∷ e ∷ s) at =
    let one = pattern_until d (e ∷ s) (at + len_utf8 c) in
    let two = pattern_until d s (at + len_utf8 c + len_utf8 e) in
    if c == d
    then ([], record { rest = c ∷ e ∷ s; at = at })
    else if c == b'\\'
    then (c ∷ e ∷ two.0, two.1)
    else (c ∷ one.0, one.1)

abbrev pub AddressResult : Type 0
AddressResult = ExParseResult (Option Address × Cursor)

-- The amount of an offset, 1 where no digits follow the sign.
unfoldable pub amount_of : Text → Option ℕ
unfolding parse_below
amount_of [] = some 1
amount_of (c ∷ s) = parse_below (2 ^ 63) (c ∷ s)

abbrev pub sign_of : Option ℕ → Option Bool
sign_of none = none
sign_of (some c) = if c == b'+' then some true else if c == b'-' then some false else none

abbrev pub RangeResult : Type 0
RangeResult = ExParseResult (Option CommandRange × Cursor)

unfoldable pub separator_of : Option ℕ → Option RangeSeparator
separator_of none = none
separator_of (some c) =
    if c == b','
    then some RangeSeparator.comma
    else if c == b';'
    then some RangeSeparator.semicolon
    else none

unfoldable pub range_end : Address → RangeSeparator → AddressResult → RangeResult
range_end start separator (ExParseResult.failed d) = ExParseResult.failed d
range_end start separator (ExParseResult.parsed (end, c)) =
    ExParseResult.parsed (some (record { start = start; end = end; separator = some separator }), c)

module _ (l : Line) where
  unfoldable pub mark_address : Cursor → AddressResult
  unfolding peek bump parse_error
  mark_address c = elim (peek c.rest) [
    | none ↦
        ExParseResult.failed (parse_error l (text "X002") (text "expected mark name") c.at c.at)
    | some mark ↦ ExParseResult.parsed (some (Address.mark mark), bump c)
  ]

  unfoldable pub search_address : ℕ → Cursor → AddressResult
  unfolding peek bump parse_error pattern_until
  search_address delimiter c =
      let (pattern, after) = pattern_until delimiter c.rest c.at in
      if is_char delimiter (peek after.rest)
      then ExParseResult.parsed
          (some (Address.pattern_search pattern (delimiter == b'/')), bump after)
      else ExParseResult.failed
          (parse_error l (text "X003") (text "unterminated search address") c.at after.at)

  unfoldable pub line_address : Cursor → AddressResult
  unfolding digits parse_below parse_error
  line_address c =
      let (number, after) = digits c in
      elim (parse_below (2 ^ 64) number) [
        | some n ↦ ExParseResult.parsed (some (Address.line n), after)
        | none ↦
            ExParseResult.failed
              (parse_error l (text "X004") (text "line number is too large") c.at after.at)
      ]

  -- The address before its offsets, by its first character.
  unfoldable pub simple_address : Cursor → AddressResult
  unfolding peek bump mark_address search_address line_address
  simple_address c = elim (peek c.rest) [
    | none ↦ ExParseResult.parsed (none, c)
    | some ch ↦
        if ch == b'.'
        then ExParseResult.parsed (some Address.current, bump c)
        else if ch == b'$'
        then ExParseResult.parsed (some Address.last, bump c)
        else if ch == b'\''
        then mark_address (bump c)
        else if (ch == b'/') || (ch == b'?')
        then search_address ch (bump c)
        else if is_ascii_digit ch
        then line_address c
        else ExParseResult.parsed (none, c)
  ]

  -- The loop over offsets, with as many rounds as the fuel; each takes a sign.
  unfoldable pub offsets_loop : (fuel : ℕ) → Address → Cursor → AddressResult
  unfolding peek bump digits amount_of parse_error
  offsets_loop zero address c = ExParseResult.parsed (some address, c)
  offsets_loop (suc fuel) address c = elim (sign_of (peek c.rest)) [
    | none ↦ ExParseResult.parsed (some address, c)
    | some plus ↦
        let signed = bump c in
        let (number, after) = digits signed in
        elim (amount_of number) [
          | none ↦
              ExParseResult.failed
                (parse_error l (text "X005") (text "range offset is too large") signed.at after.at)
          | some n ↦
              offsets_loop fuel (Address.offset address (if plus then pos n else neg_ℤ (pos n)))
                after
        ]
  ]

  unfoldable pub with_offsets : AddressResult → AddressResult
  unfolding offsets_loop
  with_offsets (ExParseResult.parsed (none, c)) = ExParseResult.parsed (none, c)
  with_offsets (ExParseResult.parsed (some address, c)) = offsets_loop (length c.rest) address c
  with_offsets (ExParseResult.failed d) = ExParseResult.failed d

  unfoldable pub address : Cursor → AddressResult
  unfolding simple_address with_offsets
  address c = with_offsets (simple_address c)

  unfoldable pub range_from : AddressResult → RangeResult
  unfolding separator_of peek bump horizontal_space address range_end
  range_from (ExParseResult.failed d) = ExParseResult.failed d
  range_from (ExParseResult.parsed (none, c)) = ExParseResult.parsed (none, c)
  range_from (ExParseResult.parsed (some start, c)) = elim (separator_of (peek c.rest)) [
    | none ↦ ExParseResult.parsed (some (record { start = start; end = none; separator = none }), c)
    | some separator ↦ range_end start separator (address (horizontal_space (bump c)))
  ]

  unfoldable pub parse_range : Cursor → RangeResult
  unfolding peek bump range_from address
  parse_range c =
      if is_char b'%' (peek c.rest)
      then ExParseResult.parsed
          (some (record { start = Address.whole_file; end = none; separator = none }), bump c)
      else range_from (address c)
