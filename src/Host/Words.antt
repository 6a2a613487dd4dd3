-- ===== src/Host/Words.antt =====
-- src/host.rs: word_at, and what its users take from the standard library's texts.
use vim_script.Prelude.{
  ℕ, zero, suc, ◌+◌, ◌-◌, Bool, true, Option, none, some, List, [], ◌∷◌, ◌++◌, reverse, Text,
  starts_with, strip_prefix, ◌==◌, if◌then◌else◌, length, is_whitespace, is_ascii_uppercase,
  is_ascii_digit, is_ascii_alphabetic, trim_start,
}

-- The characters up to the next whitespace, and what follows them.
unfoldable pub until_whitespace : Text → Text × Text
until_whitespace [] = ([], [])
until_whitespace (c ∷ s) =
    let more = until_whitespace s in if is_whitespace c then ([], c ∷ s) else (c ∷ more.0, more.1)

unfoldable pub filled_word : Text × Text → Option (Text × Text)
filled_word ([], rest) = none
filled_word (c ∷ w, rest) = some (c ∷ w, rest)

-- The first word of a text and what follows it; a cursor is the rest of the text from it on.
unfoldable pub word_at : Text → Option (Text × Text)
unfolding filled_word until_whitespace
word_at s = filled_word (until_whitespace (trim_start s))

-- `str::replace` of a text that is not empty; the next `skip` characters have been replaced.
unfoldable pub replace_from : (pattern with_text : Text) (skip : ℕ) → Text → Text
replace_from pattern with_text skip [] = []
replace_from pattern with_text (suc skip) (c ∷ s) = replace_from pattern with_text skip s
replace_from pattern with_text zero (c ∷ s) =
    let after = replace_from pattern with_text (length pattern - 1) s in
    let here = replace_from pattern with_text 0 s in
    if starts_with (c ∷ s) pattern then with_text ++ after else c ∷ here

unfoldable pub replace_all : Text → Text → Text → Text
unfolding replace_from
replace_all pattern with_text s = replace_from pattern with_text 0 s

unfoldable pub lengthen_first : ℕ → List Text → List Text
lengthen_first c [] = (c ∷ []) ∷ []
lengthen_first c (part ∷ parts) = (c ∷ part) ∷ parts

-- `str::split` by a character
unfoldable pub split_char : ℕ → Text → List Text
unfolding lengthen_first
split_char d [] = [] ∷ []
split_char d (c ∷ s) =
    let parts = split_char d s in if c == d then [] ∷ parts else lengthen_first c parts

unfoldable pub to_lower_char : ℕ → ℕ
to_lower_char c = if is_ascii_uppercase c then c + 32 else c

unfoldable pub to_ascii_lowercase : Text → Text
unfolding to_lower_char
to_ascii_lowercase [] = []
to_ascii_lowercase (c ∷ s) = to_lower_char c ∷ to_ascii_lowercase s

unfoldable pub is_ascii_alphanumeric : ℕ → Bool
is_ascii_alphanumeric c = if is_ascii_alphabetic c then true else is_ascii_digit c

unfoldable pub reversed_prefix : Option Text → Option Text
reversed_prefix none = none
reversed_prefix (some s) = some (reverse s)

-- `str::strip_suffix`
unfoldable pub strip_suffix : Text → Text → Option Text
unfolding reversed_prefix
strip_suffix s suffix = reversed_prefix (strip_prefix (reverse s) (reverse suffix))
