-- ===== src/ExParser/Opening.antt =====
-- src/ex_parser.rs: how printed lines begin, and their modifiers.
use vim_script.Prelude.{
  ℕ, zero, suc, ◌+◌, ◌≤◌, ◌<◌, ◌≡◌, refl, Bool, true, false, ◌||◌, none, some, List, [], ◌∷◌, ◌++◌,
  map, Text, arith, text_eq, ◌==◌, length, is_ascii_digit, is_ascii_alphabetic, is_ascii_uppercase,
  all_by,
}
use vim_script.ExParser.Cursor.{peek, bump, is_char, is_blank_char, take_while, word, accept}
use vim_script.ExParser.Modifiers.{modifier_of, next_modifier, prepend_modifier, modifiers_loop}
use vim_script.ExParser.Scanning.{Stops, horizontal_space-one}
use vim_script.ExParser.Printing.{LineModifier, modifier, show_modifier, show_modifiers}

-- A text that begins with a letter, a digit or `%`.
unfoldable pub opens : Text → Bool
opens [] = false
opens (c ∷ s) = is_ascii_alphabetic c || is_ascii_digit c || (c == b'%')

pub opens-Stops : (s : Text) → opens s ≡ true → Stops is_blank_char s
unfolding opens is_ascii_alphabetic is_ascii_uppercase is_ascii_digit
opens-Stops [] h = tt
opens-Stops (c ∷ s) h = ground arith

pub opens-colon : (s : Text) → opens s ≡ true → is_char b':' (peek s) ≡ false
unfolding opens is_ascii_alphabetic is_ascii_uppercase is_ascii_digit peek
opens-colon [] h = refl
opens-colon (c ∷ s) h = ground arith

pub name-opens :
    (s t : Text) → all_by is_ascii_alphabetic s ≡ true → 0 < length s → opens (s ++ t) ≡ true
unfolding opens all_by
name-opens [] t all filled = absurd (omega arith)
name-opens (c ∷ s) t all filled = ground arith

pub digits-opens :
    (s t : Text) → all_by is_ascii_digit s ≡ true → 0 < length s → opens (s ++ t) ≡ true
unfolding opens all_by
digits-opens [] t all filled = absurd (omega arith)
digits-opens (c ∷ s) t all filled = ground arith

pub digits-Stops :
    (s t : Text)
    → all_by is_ascii_digit s ≡ true
    → 0 < length s
    → Stops is_ascii_alphabetic (s ++ t)
unfolding all_by is_ascii_alphabetic is_ascii_uppercase is_ascii_digit
digits-Stops [] t all filled = absurd (omega arith)
digits-Stops (c ∷ s) t all filled = ground arith

pub modifiers-opens :
    (ms : List LineModifier) (s : Text) → opens s ≡ true → opens (show_modifiers ms s) ≡ true
unfolding opens show_modifiers is_ascii_alphabetic is_ascii_uppercase is_ascii_digit
modifiers-opens [] s h = h
modifiers-opens (LineModifier.silent true ∷ ms) s h = refl
modifiers-opens (LineModifier.silent false ∷ ms) s h = refl
modifiers-opens (LineModifier.keep_jumps ∷ ms) s h = refl
modifiers-opens (LineModifier.keep_alt ∷ ms) s h = refl
modifiers-opens (LineModifier.keep_marks ∷ ms) s h = refl
modifiers-opens (LineModifier.no_autocmd ∷ ms) s h = refl
modifiers-opens (LineModifier.sandbox ∷ ms) s h = refl
modifiers-opens (LineModifier.vertical ∷ ms) s h = refl
modifiers-opens (LineModifier.verbose ∷ ms) s h = refl
modifiers-opens (LineModifier.tab ∷ ms) s h = refl

-- One modifier and the space behind it.
next_modifier-show :
    (m : LineModifier) (rest : Text) (at : ℕ)
    → (at' : ℕ) × (next_modifier (record { rest = show_modifier m ++ b' ' ∷ rest; at = at })
        ≡ some (modifier m, record { rest = b' ' ∷ rest; at = at' }))
unfolding next_modifier modifier_of show_modifier modifier word take_while is_ascii_alphabetic
    is_ascii_uppercase text_eq accept peek bump
next_modifier-show (LineModifier.silent true) rest at = (_, refl)
next_modifier-show (LineModifier.silent false) rest at = (_, refl)
next_modifier-show LineModifier.keep_jumps rest at = (_, refl)
next_modifier-show LineModifier.keep_alt rest at = (_, refl)
next_modifier-show LineModifier.keep_marks rest at = (_, refl)
next_modifier-show LineModifier.no_autocmd rest at = (_, refl)
next_modifier-show LineModifier.sandbox rest at = (_, refl)
next_modifier-show LineModifier.vertical rest at = (_, refl)
next_modifier-show LineModifier.verbose rest at = (_, refl)
next_modifier-show LineModifier.tab rest at = (_, refl)

pub modifiers_loop-show :
    (ms : List LineModifier) (tail : Text) (at fuel : ℕ)
    → length ms ≤ fuel
    → opens tail ≡ true
    → ((at : ℕ) → next_modifier (record { rest = tail; at = at }) ≡ none)
    → (at' : ℕ) × (modifiers_loop fuel (record { rest = show_modifiers ms tail; at = at })
        ≡ (map modifier ms, record { rest = tail; at = at' }))
unfolding modifiers_loop show_modifiers prepend_modifier
modifiers_loop-show [] tail at zero le open_tail ends = (at, refl)
modifiers_loop-show [] tail at (suc fuel) le open_tail ends =
    (at, rw (ends at, modifiers_loop) refl)
modifiers_loop-show (m ∷ ms) tail at zero le open_tail ends = absurd (omega arith)
modifiers_loop-show (m ∷ ms) tail at (suc fuel) le open_tail ends =
    let (behind, next) = next_modifier-show m (show_modifiers ms tail) at in
    let space =
      horizontal_space-one (show_modifiers ms tail) behind
        (opens-Stops (show_modifiers ms tail) (modifiers-opens ms tail open_tail)) in
    let (at', rest) = modifiers_loop-show ms tail (behind + 1) fuel (omega arith) open_tail ends in
    (at', rw (next, modifiers_loop, space, rest, prepend_modifier) refl)
