-- ===== src/Source/Tests.antt =====
-- src/source.rs: a location and a rendered diagnostic.
use vim_script.Prelude.{
  ◌≡◌, refl, none, some, ◌∷◌, ◌++◌, Text, text, arith, byte_length, len_utf8, ◌<◌, split_at_byte, ℕ,
  ◌^◌,
}
use vim_script.Source.{SourceId}
use vim_script.Source.Files.{new_file, location}
use vim_script.Source.Files.Locations.{walk, location-walk}

abbrev first_id : SourceId
first_id = record { index = 0 }

-- Two lines, the second with a character of two bytes.
abbrev two_lines : Text
two_lines = text "let x" ++ b'\n' ∷ 233 ∷ text " = 1"

two_lines_room : byte_length (two_lines ++ text " + 2") < 2 ^ 32
unfolding byte_length len_utf8
two_lines_room = omega arith

location-walk_example :
    (location
        (new_file first_id (text "a.vim") none (two_lines ++ text " + 2"))
        (byte_length two_lines)
      ≡ some (
          some (record {
            line = (walk 1 1 two_lines).0;
            column = (walk 1 1 two_lines).1;
            byte_offset = byte_length two_lines;
          })))
    × ((offset : ℕ)
        → split_at_byte offset (two_lines ++ text " + 2") ≡ none
        → location (new_file first_id (text "a.vim") none (two_lines ++ text " + 2")) offset
          ≡ some none)
location-walk_example =
    location-walk first_id (text "a.vim") none two_lines (text " + 2") two_lines_room

two_lines_end : walk 1 1 two_lines ≡ (2, 6)
unfolding walk
two_lines_end = refl
