-- ===== src/Source/Files/Locations.antt =====
-- src/source.rs: the line and the column of a location are those of a walk over the text.
use mathlib.Core.List.{append_assoc}
use vim_script.Prelude.{
  ℕ, ◌+◌, ◌-◌, ◌^◌, ◌<◌, ◌≤◌, ◌≡◌, refl, sym, ap, ◌∙◌, inl, inr, Option, none, some, [], ◌∷◌, ◌++◌,
  Text, leb, ◌==◌, if◌then◌else◌, length, length-append, get_elem?, arith, Bool-cases, len_utf8,
  byte_length, split_at_byte,
}
use vim_script.Source.{SourceId}
use vim_script.Source.Files.{
  line_starts_from, new_file, partition_point, slice_bytes, location_of, location_in, location_at,
  location,
}
use vim_script.Source.Files.Bytes.{
  len_utf8-positive, len_utf8-feed, byte_length-append, byte_length-snoc, split_at_byte-append,
  slice_bytes-middle,
}

-- The line and the column that a walk over a text ends at.
unfoldable pub walk : ℕ → ℕ → Text → ℕ × ℕ
walk line column [] = (line, column)
walk line column (c ∷ s) =
    let new_line = walk (line + 1) 1 s in
    let same_line = walk line (column + 1) s in if c == b'\n' then new_line else same_line

line_feeds : Text → ℕ
line_feeds [] = 0
line_feeds (c ∷ s) = if c == b'\n' then line_feeds s + 1 else line_feeds s

-- Where the last line of a text starts, and what of the line is in the text.
last_start : ℕ → ℕ → Text → ℕ
unfolding len_utf8
last_start start at [] = start
last_start start at (c ∷ s) =
    let new_line = last_start (at + 1) (at + 1) s in
    let same_line = last_start start (at + len_utf8 c) s in
    if c == b'\n' then new_line else same_line

last_line : Text → Text → Text
last_line current [] = current
last_line current (c ∷ s) =
    let new_line = last_line [] s in
    let same_line = last_line (current ++ c ∷ []) s in if c == b'\n' then new_line else same_line

partition_point-behind :
    (at bound : ℕ) (s : Text)
    → bound ≤ at
    → at + byte_length s < 2 ^ 32
    → partition_point (λ start. leb start bound) (line_starts_from at s) ≡ 0
unfolding partition_point line_starts_from byte_length
partition_point-behind at bound [] h room = refl
partition_point-behind at bound (c ∷ s) h room = ground (
  arith,
  len_utf8-feed c,
  partition_point-behind (at + len_utf8 c) bound s (omega arith) (omega (arith, room)),
)

partition_point-feeds :
    (at bound : ℕ) (before after : Text)
    → bound ≡ at + byte_length before
    → at + byte_length (before ++ after) < 2 ^ 32
    → partition_point (λ start. leb start bound) (line_starts_from at (before ++ after))
      ≡ line_feeds before
unfolding partition_point line_starts_from byte_length line_feeds
partition_point-feeds at bound [] after e room =
    partition_point-behind at bound after (omega (arith, e)) room
partition_point-feeds at bound (c ∷ before) after e room = ground (
  arith,
  len_utf8-feed c,
  byte_length-append before after,
  partition_point-feeds (at + len_utf8 c) bound before after (omega (arith, e))
      (omega (arith, room)),
)

line_starts-last :
    (start at : ℕ) (before after : Text)
    → at + byte_length (before ++ after) < 2 ^ 32
    → get_elem? (start ∷ line_starts_from at (before ++ after)) (line_feeds before)
      ≡ some (last_start start at before)
unfolding line_starts_from byte_length line_feeds last_start
line_starts-last start at [] after room = refl
line_starts-last start at (c ∷ before) after room = elim (Bool-cases (c == b'\n')) [
  | inl feed ↦ ground (
    arith,
    feed,
    len_utf8-feed c feed,
    byte_length-append before after,
    line_starts-last (at + 1) (at + 1) before after (omega (arith, room, len_utf8-feed c feed)),
  )
  | inr other ↦
      ground
        (arith, other, line_starts-last start (at + len_utf8 c) before after (omega (arith, room)))
]

slice_bytes-last_line :
    (start at end : ℕ) (pre current before after s : Text)
    → start ≡ byte_length pre
    → at ≡ byte_length pre + byte_length current
    → end ≡ at + byte_length before
    → s ≡ pre ++ (current ++ (before ++ after))
    → slice_bytes (last_start start at before) end s ≡ some (last_line current before)
unfolding byte_length last_start last_line
slice_bytes-last_line start at end pre current [] after s e f g h =
    rw h (slice_bytes-middle start end pre current after e (omega (arith, f, g)))
slice_bytes-last_line start at end pre current (c ∷ before) after s e f g h =
    elim (Bool-cases (c == b'\n')) [
      | inl feed ↦
          let moved : s ≡ (pre ++ (current ++ c ∷ [])) ++ (before ++ after) =
            h
            ∙ ap (λ x. pre ++ x) (sym (append_assoc current (c ∷ []) (before ++ after)))
            ∙ sym (append_assoc pre (current ++ c ∷ []) (before ++ after)) in
          let here : at + 1 ≡ byte_length (pre ++ (current ++ c ∷ [])) = omega (
            arith,
            f,
            len_utf8-feed c feed,
            byte_length-append pre (current ++ c ∷ []),
            byte_length-snoc current c,
          ) in
          rw feed (
            slice_bytes-last_line (at + 1) (at + 1) end (pre ++ (current ++ c ∷ [])) [] before after
              s here (omega (arith, here)) (omega (arith, g, len_utf8-feed c feed)) moved)
      | inr other ↦
          let moved : s ≡ pre ++ ((current ++ c ∷ []) ++ (before ++ after)) =
            h ∙ ap (λ x. pre ++ x) (sym (append_assoc current (c ∷ []) (before ++ after))) in
          rw other (
            slice_bytes-last_line start (at + len_utf8 c) end pre (current ++ c ∷ []) before after s
              e (omega (arith, f, byte_length-snoc current c)) (omega (arith, g)) moved)
    ]

walk-counts :
    (line column : ℕ) (current before : Text)
    → column ≡ length current + 1
    → walk line column before ≡ (line + line_feeds before, length (last_line current before) + 1)
unfolding walk line_feeds last_line
walk-counts line column current [] e = ground (arith, e)
walk-counts line column current (c ∷ before) e = ground (
  arith,
  e,
  walk-counts (line + 1) 1 [] before refl,
  walk-counts line (column + 1) (current ++ c ∷ []) before
      (omega (arith, e, length-append current (c ∷ []))),
)

line_feeds-le : (s : Text) → line_feeds s ≤ byte_length s
unfolding line_feeds byte_length
line_feeds-le [] = omega arith
line_feeds-le (c ∷ s) = ground (arith, line_feeds-le s, len_utf8-positive c)

last_line-le : (current s : Text) → length (last_line current s) ≤ length current + byte_length s
unfolding last_line byte_length
last_line-le current [] = omega arith
last_line-le current (c ∷ s) = ground (
  arith,
  last_line-le [] s,
  last_line-le (current ++ c ∷ []) s,
  length-append current (c ∷ []),
  len_utf8-positive c,
)

slice_bytes-begun :
    (before after : Text)
    → slice_bytes (last_start 0 0 before) (byte_length before) (before ++ after)
      ≡ some (last_line [] before)
unfolding byte_length
slice_bytes-begun before after =
    slice_bytes-last_line 0 0 (byte_length before) [] [] before after (before ++ after) refl refl
      (omega arith) refl

line_index-feeds :
    (before after : Text)
    → byte_length (before ++ after) < 2 ^ 32
    → partition_point
          (λ start. leb start (byte_length before))
          (0 ∷ line_starts_from 0 (before ++ after))
        - 1
      ≡ line_feeds before
unfolding partition_point
line_index-feeds before after room = ground (
  arith,
  partition_point-feeds 0 (byte_length before) before after (omega arith) (omega (arith, room)),
)

location_of-walk :
    (before after : Text)
    → byte_length (before ++ after) < 2 ^ 32
    → location_of (line_feeds before) (byte_length before) (some (last_line [] before))
      ≡ some (
          some (record {
            line = (walk 1 1 before).0;
            column = (walk 1 1 before).1;
            byte_offset = byte_length before;
          }))
unfolding location_of
location_of-walk before after room = ground (
  arith,
  room,
  walk-counts 1 1 [] before refl,
  line_feeds-le before,
  last_line-le [] before,
  byte_length-append before after,
)

-- The location of the end of a text in a file that begins with it, of less than 2^32 bytes, has the
-- line and the column that a walk over the text ends at, where a line feed starts the next line and
-- any other character moves on by one column. There is no location inside a character and behind the end.
pub location-walk :
    (id : SourceId) (name : Text) (path : Option Text) (before after : Text)
    → byte_length (before ++ after) < 2 ^ 32
    → (location (new_file id name path (before ++ after)) (byte_length before)
        ≡ some (
            some (record {
              line = (walk 1 1 before).0;
              column = (walk 1 1 before).1;
              byte_offset = byte_length before;
            })))
      × ((offset : ℕ)
          → split_at_byte offset (before ++ after) ≡ none
          → location (new_file id name path (before ++ after)) offset ≡ some none)
unfolding location location_at location_in location_of new_file
location-walk id name path before after room =
    let text = before ++ after in
    let file = new_file id name path text in
    let starts = 0 ∷ line_starts_from 0 text in
    let end = byte_length before in
    (
      ap (λ o. location_at end o file) (split_at_byte-append end before after refl)
          ∙ ap (λ i. location_in i end (get_elem? starts i) text)
              (line_index-feeds before after room)
          ∙ ap (λ o. location_in (line_feeds before) end o text)
              (line_starts-last 0 0 before after (omega (arith, room)))
          ∙ ap (location_of (line_feeds before) end) (slice_bytes-begun before after)
          ∙ location_of-walk before after room,
      λ offset outside. ap (λ o. location_at offset o file) outside,
    )
