-- ===== src/ExParser/Modifiers.antt =====
-- src/ex_parser.rs: modifiers.
use vim_script.Prelude.{
  ℕ, zero, suc, Option, none, some, List, [], ◌∷◌, Text, text, text_eq, if◌then◌else◌, length,
}
use vim_script.Ast.{CommandModifier}
use vim_script.ExParser.Cursor.{Cursor, horizontal_space, word, accept}

-- The modifier that a word names, where a `!` may follow `silent`.
unfoldable pub modifier_of : Text → Cursor → Option (CommandModifier × Cursor)
unfolding accept
modifier_of w c =
    let (errors, after) = accept b'!' c in
    if text_eq w (text "silent")
    then some (CommandModifier.silent errors, after)
    else if text_eq w (text "keepjumps")
    then some (CommandModifier.keep_jumps, c)
    else if text_eq w (text "keepalt")
    then some (CommandModifier.keep_alt, c)
    else if text_eq w (text "keepmarks")
    then some (CommandModifier.keep_marks, c)
    else if text_eq w (text "noautocmd")
    then some (CommandModifier.no_autocmd, c)
    else if text_eq w (text "sandbox")
    then some (CommandModifier.sandbox, c)
    else if text_eq w (text "vertical")
    then some (CommandModifier.vertical, c)
    else if text_eq w (text "verbose")
    then some (CommandModifier.verbose 1, c)
    else if text_eq w (text "tab")
    then some (CommandModifier.tab none, c)
    else none

unfoldable pub next_modifier : Cursor → Option (CommandModifier × Cursor)
unfolding word modifier_of
next_modifier c = let (w, after) = word c in modifier_of w after

unfoldable pub prepend_modifier :
    CommandModifier → List CommandModifier × Cursor → List CommandModifier × Cursor
prepend_modifier m (ms, c) = (m ∷ ms, c)

-- The loop, with as many rounds as the fuel; each takes a word.
unfoldable pub modifiers_loop : (fuel : ℕ) → Cursor → List CommandModifier × Cursor
unfolding next_modifier prepend_modifier horizontal_space
modifiers_loop zero c = ([], c)
modifiers_loop (suc fuel) c = elim (next_modifier c) [
  | none ↦ ([], c)
  | some (m, after) ↦ prepend_modifier m (modifiers_loop fuel (horizontal_space after))
]

unfoldable pub modifiers : Cursor → List CommandModifier × Cursor
unfolding modifiers_loop
modifiers c = modifiers_loop (length c.rest) c
