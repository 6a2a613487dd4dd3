-- ===== src/ExParser/RangeText.antt =====
-- src/ex_parser.rs: printed ranges of line numbers.
use vim_script.Prelude.{
  ℕ, zero, suc, ◌+◌, ◌<◌, ◌^◌, ◌≡◌, refl, true, false, none, some, [], ◌∷◌, ◌++◌, Text, arith,
  length, byte_length, len_utf8, is_ascii_digit, is_ascii_alphabetic, is_ascii_uppercase, all_by,
  show_ℕ, show_ℕ-IsDecimal,
}
use vim_script.Ast.{Address, RangeSeparator}
use vim_script.ExParser.Cursor.{Line, ExParseResult, peek, bump, is_char, horizontal_space}
use vim_script.ExParser.Ranges.{
  parse_below, simple_address, line_address, sign_of, offsets_loop, with_offsets, address,
  separator_of, range_end, range_from, parse_range,
}
use vim_script.ExParser.Scanning.{Stops, horizontal_space-Stops, digits-append}
use vim_script.ExParser.Printing.{LineRange, command_range, show_separator, show_range, FitsU64}
use vim_script.ExParser.Opening.{opens-Stops, digits-opens}

-- Where the line goes on with a letter, no offset and no second address follow.
abbrev Follows : Text → Type 0
Follows s = (Stops is_ascii_digit s) × (sign_of (peek s) ≡ none)

name-follows :
    (name t : Text)
    → all_by is_ascii_alphabetic name ≡ true
    → 0 < length name
    → Stops is_ascii_digit (name ++ t)
      × (sign_of (peek (name ++ t)) ≡ none)
      × (separator_of (peek (name ++ t)) ≡ none)
unfolding all_by peek separator_of is_ascii_alphabetic is_ascii_uppercase is_ascii_digit
name-follows [] t all filled = absurd (omega arith)
name-follows (c ∷ s) t all filled = (ground arith, ground arith, ground arith)

offsets_loop-stops :
    (l : Line) (fuel : ℕ) (a : Address) (s : Text) (at : ℕ)
    → sign_of (peek s) ≡ none
    → offsets_loop l fuel a (record { rest = s; at = at })
      ≡ ExParseResult.parsed (some a, record { rest = s; at = at })
unfolding offsets_loop
offsets_loop-stops l zero a s at h = refl
offsets_loop-stops l (suc fuel) a s at h = rw (h, offsets_loop) refl

parse_below-show : (bound n : ℕ) → n < bound → parse_below bound (show_ℕ n) ≡ some n
unfolding parse_below
parse_below-show bound n lt = let (all, filled, value) = show_ℕ-IsDecimal n in ground (arith, value)

simple_address-digits :
    (l : Line) (s : Text) (t : Text) (at : ℕ)
    → all_by is_ascii_digit s ≡ true
    → 0 < length s
    → simple_address l (record { rest = s ++ t; at = at })
      ≡ line_address l (record { rest = s ++ t; at = at })
unfolding simple_address all_by peek is_ascii_digit
simple_address-digits l [] t at all filled = absurd (omega arith)
simple_address-digits l (c ∷ s) t at all filled = ground arith

line_address-show :
    (l : Line) (n : ℕ) (t : Text) (at : ℕ)
    → n < 2 ^ 64
    → Stops is_ascii_digit t
    → line_address l (record { rest = show_ℕ n ++ t; at = at })
      ≡ ExParseResult.parsed
          (some (Address.line n), record { rest = t; at = at + byte_length (show_ℕ n) })
unfolding line_address
line_address-show l n t at lt stops =
    let (all, filled, value) = show_ℕ-IsDecimal n in
    let scanned = digits-append (show_ℕ n) t at all stops in
    rw (scanned, parse_below-show (2 ^ 64) n lt, line_address, scanned) refl

address-show :
    (l : Line) (n : ℕ) (t : Text) (at : ℕ)
    → n < 2 ^ 64
    → Follows t
    → address l (record { rest = show_ℕ n ++ t; at = at })
      ≡ ExParseResult.parsed
          (some (Address.line n), record { rest = t; at = at + byte_length (show_ℕ n) })
unfolding address with_offsets
address-show l n t at lt (stops, unsigned) =
    let (all, filled, value) = show_ℕ-IsDecimal n in
    rw
      (
        simple_address-digits l (show_ℕ n) t at all filled,
        line_address-show l n t at lt stops,
        with_offsets,
      )
      (offsets_loop-stops l (length t) (Address.line n) t (at + byte_length (show_ℕ n)) unsigned)

-- A line that goes on with a letter, or with a separator.
letter-Follows :
    (name t : Text) → all_by is_ascii_alphabetic name ≡ true → 0 < length name → Follows (name ++ t)
letter-Follows name t all filled = let (a, b, c) = name-follows name t all filled in (a, b)

separator-Follows : (separator : RangeSeparator) (t : Text) → Follows (show_separator separator ∷ t)
unfolding show_separator peek is_ascii_digit
separator-Follows RangeSeparator.comma t = (refl, refl)
separator-Follows RangeSeparator.semicolon t = (refl, refl)

simple_address-name :
    (l : Line) (name t : Text) (at : ℕ)
    → all_by is_ascii_alphabetic name ≡ true
    → 0 < length name
    → (is_char b'%' (peek (name ++ t)) ≡ false)
      × (simple_address l (record { rest = name ++ t; at = at })
          ≡ ExParseResult.parsed (none, record { rest = name ++ t; at = at }))
unfolding simple_address all_by peek is_ascii_alphabetic is_ascii_uppercase is_ascii_digit
simple_address-name l [] t at all filled = absurd (omega arith)
simple_address-name l (c ∷ s) t at all filled = (ground arith, ground arith)

digits-percent :
    (s t : Text)
    → all_by is_ascii_digit s ≡ true
    → 0 < length s
    → is_char b'%' (peek (s ++ t)) ≡ false
unfolding all_by peek is_ascii_digit
digits-percent [] t all filled = absurd (omega arith)
digits-percent (c ∷ s) t all filled = ground arith

second :
    (l : Line) (n m : ℕ) (separator : RangeSeparator) (t : Text) (at : ℕ)
    → m < 2 ^ 64
    → Follows t
    → (at' : ℕ) × (range_end
          (Address.line n)
          separator
          (address l (horizontal_space (record { rest = show_ℕ m ++ t; at = at })))
        ≡ ExParseResult.parsed
            (command_range (LineRange.two n separator m), record { rest = t; at = at' }))
unfolding range_end command_range
second l n m separator t at lt follows =
    let (digit, some_digit, value) = show_ℕ-IsDecimal m in
    let space =
      horizontal_space-Stops (show_ℕ m ++ t) at
        (opens-Stops (show_ℕ m ++ t) (digits-opens (show_ℕ m) t digit some_digit)) in
    (
      at + byte_length (show_ℕ m),
      rw (space, address-show l m t at lt follows, range_end, command_range) refl,
    )

range_end-show :
    (l : Line) (n m : ℕ) (separator : RangeSeparator) (t : Text) (at : ℕ)
    → m < 2 ^ 64
    → Follows t
    → (at' : ℕ) × (range_from l (
          ExParseResult.parsed (
            some (Address.line n),
            record { rest = show_separator separator ∷ show_ℕ m ++ t; at = at },
          ))
        ≡ ExParseResult.parsed
            (command_range (LineRange.two n separator m), record { rest = t; at = at' }))
unfolding range_from show_separator separator_of peek bump range_end command_range len_utf8
range_end-show l n m RangeSeparator.comma t at lt follows =
    second l n m RangeSeparator.comma t (at + 1) lt follows
range_end-show l n m RangeSeparator.semicolon t at lt follows =
    second l n m RangeSeparator.semicolon t (at + 1) lt follows

pub parse_range-show :
    (l : Line) (range : LineRange) (name t : Text) (at : ℕ)
    → FitsU64 range
    → all_by is_ascii_alphabetic name ≡ true
    → 0 < length name
    → (at' : ℕ) × (parse_range l (record { rest = show_range range (name ++ t); at = at })
        ≡ ExParseResult.parsed (command_range range, record { rest = name ++ t; at = at' }))
unfolding parse_range show_range command_range peek bump len_utf8
parse_range-show l LineRange.no_range name t at fits all filled =
    let (percent, simple) = simple_address-name l name t at all filled in
    (at, rw (percent, simple, address, with_offsets, range_from, command_range) refl)
parse_range-show l LineRange.whole_file name t at fits all filled = (at + 1, refl)
parse_range-show l (LineRange.one n) name t at fits all filled =
    let (digit, some_digit, value) = show_ℕ-IsDecimal n in
    let (a, b, c) = name-follows name t all filled in
    (
      at + byte_length (show_ℕ n),
      rw
          (
            digits-percent (show_ℕ n) (name ++ t) digit some_digit,
            address-show l n (name ++ t) at fits (letter-Follows name t all filled),
            range_from,
            c,
            command_range,
          )
          refl,
    )
parse_range-show l (LineRange.two n separator m) name t at (fits_n, fits_m) all filled =
    let (digit, some_digit, value) = show_ℕ-IsDecimal n in
    let rest = show_separator separator ∷ show_ℕ m ++ (name ++ t) in
    let (at', second) =
      range_end-show l n m separator (name ++ t) (at + byte_length (show_ℕ n)) fits_m
        (letter-Follows name t all filled) in
    (
      at',
      rw
          (
            digits-percent (show_ℕ n) rest digit some_digit,
            address-show l n rest at fits_n (separator-Follows separator (show_ℕ m ++ (name ++ t))),
          )
          second,
    )
