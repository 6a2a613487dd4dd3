-- ===== src/Prelude/Chars.antt =====
-- Characters, the bytes of UTF-8, and what the standard library does with whitespace.
use Prim.Native.Nat.{ℕ, zero, suc, ◌+◌, ◌-◌}
use mathlib.Core.Bool.{Bool, true, false, ◌&&◌, ◌||◌}
use mathlib.Core.Option.{Option, none, some}
use mathlib.Core.List.{[], ◌∷◌}
use vim_script.Prelude.Tests.{ltb, leb, ◌==◌, if◌then◌else◌}
use vim_script.Prelude.Texts.{Text}

-- `char::len_utf8`
unfoldable pub len_utf8 : ℕ → ℕ
len_utf8 c = if ltb c 128 then 1 else if ltb c 2048 then 2 else if ltb c 65536 then 3 else 4

-- `str::len` counts the bytes of UTF-8.
unfoldable pub byte_length : Text → ℕ
unfolding len_utf8
byte_length [] = 0
byte_length (c ∷ s) = len_utf8 c + byte_length s

unfoldable pub cons_first : ℕ → Option (Text × Text) → Option (Text × Text)
cons_first c none = none
cons_first c (some (s, t)) = some (c ∷ s, t)

-- A text before and from a byte offset; `none` when that is past its end or inside a character.
unfoldable pub split_at_byte : ℕ → Text → Option (Text × Text)
unfolding len_utf8 cons_first
split_at_byte zero s = some ([], s)
split_at_byte (suc n) [] = none
split_at_byte (suc n) (c ∷ s) =
    let rest = split_at_byte (suc n - len_utf8 c) s in
    if leb (len_utf8 c) (suc n) then cons_first c rest else none

-- `char::is_whitespace`: the scalar values with the property White_Space
unfoldable pub is_whitespace : ℕ → Bool
is_whitespace c =
    (leb 9 c && leb c 13)
    || (c == 32)
    || (c == 133)
    || (c == 160)
    || (c == 5760)
    || (leb 8192 c && leb c 8202)
    || (c == 8232)
    || (c == 8233)
    || (c == 8239)
    || (c == 8287)
    || (c == 12288)

unfoldable pub is_ascii_digit : ℕ → Bool
is_ascii_digit c = leb 48 c && leb c 57

unfoldable pub is_ascii_uppercase : ℕ → Bool
is_ascii_uppercase c = leb 65 c && leb c 90

unfoldable pub is_ascii_alphabetic : ℕ → Bool
unfolding is_ascii_uppercase
is_ascii_alphabetic c = is_ascii_uppercase c || (leb 97 c && leb c 122)

unfoldable pub trim_start : Text → Text
unfolding is_whitespace
trim_start [] = []
trim_start (c ∷ s) = let rest = trim_start s in if is_whitespace c then rest else c ∷ s

-- A character stands in front of what is left of the rest, unless it is one to be trimmed and
-- nothing is left.
unfoldable pub cons_unless : Bool → ℕ → Text → Text
cons_unless true c [] = []
cons_unless false c [] = c ∷ []
cons_unless b c (d ∷ s) = c ∷ d ∷ s

-- `trim_end_matches` by a test
unfoldable pub trim_end_by : (ℕ → Bool) → Text → Text
unfolding cons_unless
trim_end_by p [] = []
trim_end_by p (c ∷ s) = cons_unless (p c) c (trim_end_by p s)

unfoldable pub trim_end : Text → Text
unfolding trim_end_by is_whitespace
trim_end s = trim_end_by is_whitespace s

unfoldable pub trim : Text → Text
unfolding trim_start trim_end
trim s = trim_start (trim_end s)
