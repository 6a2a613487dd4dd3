-- ===== src/Runtime/Builtins/Strings.antt =====
-- src/runtime/builtins.rs: the functions on texts.
use vim_script.Prelude.{
  is_whitespace, ℕ, zero, suc, ◌-◌, Bool, ◌||◌, not, List, [], ◌∷◌, ◌++◌, map, Text, text, ◌==◌,
  if◌then◌else◌, length, starts_with,
}
use vim_script.Runtime.Value.{Value, to_list, of_list, FloatOps}
use vim_script.Runtime.Error.{Result, ok, err, panic}
use vim_script.Runtime.Builtins.Display.{
  typed_error, unexpected, vim_display, vim_string, join_texts,
}

-- The case mappings of Unicode, which are the standard library's tables.
pub record CaseMapping : Type 0 where
  pub to_lowercase : Text → Text
  pub to_uppercase : Text → Text

-- A character in front of the first part.
unfoldable pub lengthen : ℕ → List Text → List Text
lengthen c [] = (c ∷ []) ∷ []
lengthen c (part ∷ parts) = (c ∷ part) ∷ parts

-- `str::split` by a text that is not empty; the next `skip` characters belong to a separator.
unfoldable pub split_text : Text → (skip : ℕ) → Text → List Text
unfolding lengthen
split_text separator skip [] = [] ∷ []
split_text separator (suc skip) (c ∷ s) = split_text separator skip s
split_text separator zero (c ∷ s) =
    let after = split_text separator (length separator - 1) s in
    let here = split_text separator 0 s in
    if starts_with (c ∷ s) separator then [] ∷ after else lengthen c here

-- `str::split_whitespace`: the parts between whitespace that are not empty
unfoldable pub split_at_whitespace : Text → List Text
unfolding lengthen
split_at_whitespace [] = [] ∷ []
split_at_whitespace (c ∷ s) =
    let parts = split_at_whitespace s in if is_whitespace c then [] ∷ parts else lengthen c parts

unfoldable pub keep_filled : List Text → List Text
keep_filled [] = []
keep_filled ([] ∷ parts) = keep_filled parts
keep_filled ((c ∷ s) ∷ parts) = (c ∷ s) ∷ keep_filled parts

unfoldable pub split_whitespace : Text → List Text
unfolding split_at_whitespace keep_filled
split_whitespace s = keep_filled (split_at_whitespace s)

unfoldable pub text_list : List Text → Value
text_list ts = Value.list (of_list (map Value.string ts))

unfoldable pub split : List Value → Result Value
unfolding split_text split_whitespace text_list
split [] = panic
split (Value.string s ∷ []) = ok (text_list (split_whitespace s))
split (Value.string s ∷ Value.string [] ∷ _) = ok (text_list (split_whitespace s))
split (Value.string s ∷ Value.string (c ∷ separator) ∷ _) =
    ok (text_list (split_text (c ∷ separator) 0 s))
split (Value.string s ∷ other ∷ _) = err (unexpected (text "split") (text "String separator") other)
split (other ∷ _) = err (unexpected (text "split") (text "String") other)

module _ (case_mapping : CaseMapping) where
  unfoldable pub tolower : List Value → Result Value
  tolower [] = panic
  tolower (Value.string s ∷ _) = ok (Value.string (case_mapping.to_lowercase s))
  tolower (other ∷ _) = err (unexpected (text "tolower") (text "String") other)

  unfoldable pub toupper : List Value → Result Value
  toupper [] = panic
  toupper (Value.string s ∷ _) = ok (Value.string (case_mapping.to_uppercase s))
  toupper (other ∷ _) = err (unexpected (text "toupper") (text "String") other)

unfoldable pub text_before : Text → Result Text → Result Text
text_before s (ok t) = ok (s ++ t)
text_before s (err e) = err e
text_before s panic = panic

unfoldable pub string_result : Result Text → Result Value
string_result (ok s) = ok (Value.string s)
string_result (err e) = err e
string_result panic = panic

module _ (fl : FloatOps) where
  unfoldable pub string : List Value → Result Value
  string [] = panic
  string (v ∷ _) = ok (Value.string (vim_string fl v))

  unfoldable pub join_displayed : Text → List Value → Result Value
  join_displayed separator vs = ok (Value.string (join_texts separator (map (vim_display fl) vs)))

  unfoldable pub join : List Value → Result Value
  unfolding join_displayed
  join [] = panic
  join (Value.list vs ∷ []) = join_displayed (text " ") (to_list vs)
  join (Value.list vs ∷ Value.string separator ∷ _) = join_displayed separator (to_list vs)
  join (Value.list vs ∷ other ∷ _) = err (unexpected (text "join") (text "String separator") other)
  join (other ∷ _) = err (unexpected (text "join") (text "List") other)

  unfoldable pub is_conversion : ℕ → Bool
  is_conversion c = (c == b's') || (c == b'd') || (c == b'f')

  -- The loop over the characters of the format.
  unfoldable pub print : Text → List Value → Result Text
  unfolding text_before is_conversion
  print [] vs = ok []
  print (c ∷ []) vs =
      if c == b'%'
      then err (typed_error (text "E767") (text "trailing % in printf"))
      else ok (c ∷ [])
  print (c ∷ d ∷ s) vs =
      let plain = print (d ∷ s) vs in
      let percent = print s vs in
      let converted : Result Text = elim vs [
        | [] ↦ err (typed_error (text "E766") (text "insufficient arguments for printf"))
        | v ∷ vs ↦ text_before (vim_display fl v) (print s vs)
      ] in
      if not (c == b'%')
      then text_before (c ∷ []) plain
      else if d == b'%'
      then text_before (b'%' ∷ []) percent
      else if is_conversion d
      then converted
      else err (typed_error (text "E767") (text "invalid printf conversion %" ++ d ∷ []))

  unfoldable pub printf : List Value → Result Value
  unfolding print string_result
  printf [] = panic
  printf (Value.string format ∷ vs) = string_result (print format vs)
  printf (other ∷ _) = err (unexpected (text "printf") (text "String format") other)
