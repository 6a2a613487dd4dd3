-- ===== src/Host/MapNames.antt =====
-- src/host.rs: mapping_modes.
use vim_script.Prelude.{
  Bool, true, false, Option, none, some, List, [], ◌∷◌, Text, text, text_eq, if◌then◌else◌,
}
use vim_script.Ast.{MapMode}
use vim_script.Host.Words.{strip_suffix}

unfoldable pub stem_or : Text → Option Text → Text × Bool
stem_or name none = (name, false)
stem_or name (some prefix) = (prefix, true)

unfoldable pub with_flag : Bool → Option Text → Option (Text × Bool)
with_flag b none = none
with_flag b (some prefix) = some (prefix, b)

unfoldable pub or_plain : Option Text → Option Text → Option (Text × Bool)
unfolding with_flag
or_plain none plain = with_flag false plain
or_plain (some prefix) plain = some (prefix, true)

-- The modes that a letter before `map` selects.
unfoldable pub prefix_modes : Text → Option (List MapMode)
prefix_modes prefix =
    if text_eq prefix []
    then some
        (MapMode.normal ∷ (MapMode.visual ∷ (MapMode.select ∷ (MapMode.operator_pending ∷ []))))
    else if text_eq prefix (text "n")
    then some (MapMode.normal ∷ [])
    else if text_eq prefix (text "v")
    then some (MapMode.visual ∷ (MapMode.select ∷ []))
    else if text_eq prefix (text "x")
    then some (MapMode.visual ∷ [])
    else if text_eq prefix (text "s")
    then some (MapMode.select ∷ [])
    else if text_eq prefix (text "o")
    then some (MapMode.operator_pending ∷ [])
    else if text_eq prefix (text "i")
    then some (MapMode.insert ∷ [])
    else if text_eq prefix (text "c")
    then some (MapMode.command_line ∷ [])
    else if text_eq prefix (text "l")
    then some (MapMode.lang_arg ∷ [])
    else if text_eq prefix (text "t")
    then some (MapMode.terminal ∷ [])
    else none

-- What the name of a mapping command says: its modes, whether it is non-recursive, whether it
-- takes a mapping away.
abbrev pub ModesOf : Type 0
ModesOf = List MapMode × (Bool × Bool)

unfoldable pub with_modes : Bool → Bool → Option (List MapMode) → Option ModesOf
with_modes non_recursive removing none = none
with_modes non_recursive removing (some modes) = some (modes, (non_recursive, removing))

unfoldable pub modes_of : Option (Text × Bool) → Bool → Option ModesOf
unfolding prefix_modes with_modes
modes_of none removing = none
modes_of (some (prefix, non_recursive)) removing =
    with_modes non_recursive removing (prefix_modes prefix)

unfoldable pub stem_modes : Text × Bool → Option ModesOf
unfolding modes_of or_plain strip_suffix
stem_modes (stem, removing) =
    modes_of (or_plain (strip_suffix stem (text "noremap")) (strip_suffix stem (text "map")))
      removing

unfoldable pub mapping_modes : Text → Option ModesOf
unfolding stem_modes stem_or strip_suffix
mapping_modes name = stem_modes (stem_or name (strip_suffix name (text "unmap")))
