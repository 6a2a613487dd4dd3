-- ===== src/Host/MapText.antt =====
-- src/host.rs: the arguments of a mapping command as a text, and how they are read.
use vim_script.Prelude.{
  ◌≡◌, refl, ap, ◌∙◌, zero, suc, ◌≤◌, not, ◌&&◌, ◌==◌, is_whitespace, is_ascii_uppercase, all_by,
  length, length-append, Bool, true, false, none, some, List, [], ◌∷◌, ◌++◌, Text, text, text_eq,
  arith, ℕ, trim_start,
}
use vim_script.Ast.{MappingOptions}
use vim_script.Host.Words.{until_whitespace, to_ascii_lowercase, to_lower_char}
use vim_script.Runtime.Error.{ok}
use vim_script.Host.Mappings.{
  mapping_attribute, mapping_option, mapping_options_loop, until_char, no_options,
  parse_mapping_options,
}

-- The options of a mapping command, what they set, and how they are written.
pub data MapOption : Type 0 where
  buffer silent expr nowait unique script : MapOption

abbrev pub with_option : MapOption → MappingOptions → MappingOptions
with_option MapOption.buffer o = record o { buffer_local = true }
with_option MapOption.silent o = record o { silent = true }
with_option MapOption.expr o = record o { expr = true }
with_option MapOption.nowait o = record o { nowait = true }
with_option MapOption.unique o = record o { unique = true }
with_option MapOption.script o = record o { script = true }

abbrev pub with_options : List MapOption → MappingOptions → MappingOptions
with_options [] o = o
with_options (m ∷ ms) o = with_options ms (with_option m o)

abbrev pub show_option : MapOption → Text
show_option MapOption.buffer = text "<buffer>"
show_option MapOption.silent = text "<silent>"
show_option MapOption.expr = text "<expr>"
show_option MapOption.nowait = text "<nowait>"
show_option MapOption.unique = text "<unique>"
show_option MapOption.script = text "<script>"

unfoldable pub show_options : List MapOption → Text → Text
show_options [] s = s
show_options (m ∷ ms) s = show_option m ++ (b' ' ∷ show_options ms s)

-- A text that neither begins with whitespace nor with a `<`.
abbrev pub begins_plain : Text → Bool
begins_plain [] = false
begins_plain (c ∷ s) = not (is_whitespace c) && not (c == b'<')

trim_start-plain : (s : Text) → begins_plain s ≡ true → trim_start s ≡ s
unfolding trim_start
trim_start-plain [] h = refl
trim_start-plain (c ∷ s) h = ground (arith, h)

trim_start-show_options :
    (ms : List MapOption) (s : Text)
    → begins_plain s ≡ true
    → trim_start (show_options ms s) ≡ show_options ms s
unfolding show_options trim_start is_whitespace
trim_start-show_options [] s h = trim_start-plain s h
trim_start-show_options (MapOption.buffer ∷ ms) s h = refl
trim_start-show_options (MapOption.silent ∷ ms) s h = refl
trim_start-show_options (MapOption.expr ∷ ms) s h = refl
trim_start-show_options (MapOption.nowait ∷ ms) s h = refl
trim_start-show_options (MapOption.unique ∷ ms) s h = refl
trim_start-show_options (MapOption.script ∷ ms) s h = refl

mapping_attribute-show :
    (m : MapOption) (o : MappingOptions) (s : Text)
    → mapping_attribute o (show_option m ++ (b' ' ∷ s)) ≡ ok (some (with_option m o, trim_start s))
unfolding mapping_attribute mapping_option until_char to_ascii_lowercase to_lower_char
    is_ascii_uppercase text_eq trim_start is_whitespace
mapping_attribute-show MapOption.buffer o s = refl
mapping_attribute-show MapOption.silent o s = refl
mapping_attribute-show MapOption.expr o s = refl
mapping_attribute-show MapOption.nowait o s = refl
mapping_attribute-show MapOption.unique o s = refl
mapping_attribute-show MapOption.script o s = refl

mapping_attribute-plain :
    (o : MappingOptions) (s : Text) → begins_plain s ≡ true → mapping_attribute o s ≡ ok none
unfolding mapping_attribute
mapping_attribute-plain o [] h = refl
mapping_attribute-plain o (c ∷ s) h = ground (arith, h)

mapping_options_loop-plain :
    (fuel : ℕ) (o : MappingOptions) (s : Text)
    → begins_plain s ≡ true
    → mapping_options_loop fuel o s ≡ ok (o, s)
unfolding mapping_options_loop
mapping_options_loop-plain zero o s h = refl
mapping_options_loop-plain (suc fuel) o s h =
    rw (mapping_attribute-plain o s h, mapping_options_loop) refl

mapping_options_loop-show :
    (fuel : ℕ) (o : MappingOptions) (ms : List MapOption) (s : Text)
    → length ms ≤ fuel
    → begins_plain s ≡ true
    → mapping_options_loop fuel o (show_options ms s) ≡ ok (with_options ms o, s)
unfolding mapping_options_loop show_options
mapping_options_loop-show fuel o [] s room h = mapping_options_loop-plain fuel o s h
mapping_options_loop-show zero o (m ∷ ms) s room h = absurd (omega (arith, room))
mapping_options_loop-show (suc fuel) o (m ∷ ms) s room h =
    rw
      (
        mapping_attribute-show m o (show_options ms s)
            ∙ ap (λ x. ok (some (with_option m o, x))) (trim_start-show_options ms s h),
        mapping_options_loop,
      )
      (mapping_options_loop-show fuel (with_option m o) ms s (omega (arith, room)) h)

length-show_options : (ms : List MapOption) (s : Text) → length ms ≤ length (show_options ms s)
unfolding show_options
length-show_options [] s = omega arith
length-show_options (m ∷ ms) s =
    omega
      (arith, length-append (show_option m) (b' ' ∷ show_options ms s), length-show_options ms s)

pub parse_mapping_options-show :
    (ms : List MapOption) (s : Text)
    → begins_plain s ≡ true
    → parse_mapping_options (show_options ms s) ≡ ok (with_options ms no_options, s)
unfolding parse_mapping_options
parse_mapping_options-show ms s h =
    ap (mapping_options_loop (length (show_options ms s)) no_options)
      (trim_start-show_options ms s h)
    ∙ mapping_options_loop-show (length (show_options ms s)) no_options ms s
        (length-show_options ms s) h

pub until_whitespace-append :
    (w s : Text)
    → all_by (λ c. not (is_whitespace c)) w ≡ true
    → until_whitespace (w ++ (b' ' ∷ s)) ≡ (w, b' ' ∷ s)
unfolding until_whitespace all_by is_whitespace
until_whitespace-append [] s h = refl
until_whitespace-append (c ∷ w) s h = ground (arith, h, until_whitespace-append w s)
