-- ===== src/Host/CommandNames.antt =====
-- src/host.rs: the names of the mapping commands are the words that mapping_modes accepts.
use vim_script.Prelude.{◌≡◌, Bool, true, false, List, ◌++◌, Text, text}
use vim_script.Ast.{MapMode}
use vim_script.Host.MapLetters.{Prefixed}

-- The name of a mapping command: letters for the modes, `map` or `noremap`, and `unmap` for
-- a command that takes mappings away.
abbrev pub command_name : Text → (non_recursive removing : Bool) → Text
command_name p false false = p ++ text "map"
command_name p true false = p ++ text "noremap"
command_name p false true = p ++ text "mapunmap"
command_name p true true = p ++ text "noremapunmap"

-- What the text before an `unmap` is, or the whole name where it has none.
Stem : Text → Bool → List MapMode → Bool → Bool → Type 0
Stem stem removing' modes non_recursive removing =
    (removing' ≡ removing)
    × (p : Text) × Prefixed p modes
    × (stem ≡ command_name p non_recursive false)
