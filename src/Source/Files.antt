-- ===== src/Source/Files.antt =====
-- src/source.rs: SourceFile and SourceMap.
pub mod Render
pub mod Bytes
pub mod Locations
use vim_script.Prelude.{
  ℕ, zero, suc, ◌+◌, ◌-◌, ◌*◌, ◌%◌, ◌^◌, Bool, true, false, ◌&&◌, ◌||◌, not, Option, none, some,
  List, [], ◌∷◌, ◌++◌, Text, text, text_eq, ltb, leb, ◌==◌, if◌then◌else◌, length, get_elem?, drop,
  len_utf8, byte_length, split_at_byte, trim_end_by,
}
use vim_script.Source.{SourceId, Span, Fallible}

pub record SourceLocation : Type 0 where
  pub line : ℕ
  pub column : ℕ
  pub byte_offset : ℕ

pub record SourceFile : Type 0 where
  pub id : SourceId
  pub name : Text
  pub path : Option Text
  pub source_text : Text
  pub line_starts : List ℕ

-- The offsets behind the line feeds; no byte of another character is that of a line feed.
unfoldable pub line_starts_from : ℕ → Text → List ℕ
unfolding len_utf8
line_starts_from offset [] = []
line_starts_from offset (c ∷ s) =
    let rest = line_starts_from (offset + len_utf8 c) s in
    if c == b'\n' then ((offset + 1) % 2 ^ 32) ∷ rest else rest

unfoldable pub new_file : SourceId → Text → Option Text → Text → SourceFile
unfolding line_starts_from
new_file id name path source_text = record {
  id = id;
  name = name;
  path = path;
  source_text = source_text;
  line_starts = 0 ∷ line_starts_from 0 source_text;
}

-- `partition_point` of a list on whose head the test holds, and not on its tail
unfoldable pub partition_point : (ℕ → Bool) → List ℕ → ℕ
partition_point p [] = 0
partition_point p (x ∷ xs) = let rest = partition_point p xs in if p x then suc rest else 0

unfoldable pub first_part : Option (Text × Text) → Option Text
first_part none = none
first_part (some (s, t)) = some s

unfoldable pub slice_from : ℕ → Option (Text × Text) → Option Text
unfolding first_part
slice_from n none = none
slice_from n (some (s, t)) = first_part (split_at_byte n t)

-- The characters between two byte offsets.
unfoldable pub slice_bytes : (start end : ℕ) → Text → Option Text
unfolding slice_from split_at_byte
slice_bytes start end s =
    if leb start end then slice_from (end - start) (split_at_byte start s) else none

unfoldable pub location_of : ℕ → ℕ → Option Text → Fallible (Option SourceLocation)
location_of index offset none = none
location_of index offset (some s) = some (
    some
      (record { line = index % 2 ^ 32 + 1; column = length s % 2 ^ 32 + 1; byte_offset = offset }))

unfoldable pub location_in : ℕ → ℕ → Option ℕ → Text → Fallible (Option SourceLocation)
unfolding location_of slice_bytes
location_in index offset none s = none
location_in index offset (some line_start) s =
    location_of index offset (slice_bytes line_start offset s)

unfoldable pub location_at :
    ℕ → Option (Text × Text) → SourceFile → Fallible (Option SourceLocation)
unfolding location_in partition_point
location_at offset none file = some none
location_at offset (some (before, after)) file =
    let index = partition_point (λ start. leb start offset) file.line_starts - 1 in
    location_in index offset (get_elem? file.line_starts index) file.source_text

unfoldable pub location : SourceFile → ℕ → Fallible (Option SourceLocation)
unfolding location_at split_at_byte
location file offset = location_at offset (split_at_byte offset file.source_text) file

unfoldable pub is_line_end : ℕ → Bool
is_line_end c = (c == b'\r') || (c == b'\n')

unfoldable pub or_length : Option ℕ → Text → ℕ
or_length none s = byte_length s % 2 ^ 32
or_length (some n) s = n

unfoldable pub line_text : Option Text → Fallible (Option Text)
unfolding trim_end_by is_line_end
line_text none = none
line_text (some s) = some (some (trim_end_by is_line_end s))

unfoldable pub line_from : Option ℕ → ℕ → SourceFile → Fallible (Option Text)
unfolding line_text or_length slice_bytes
line_from none index file = some none
line_from (some start) index file = line_text (
    slice_bytes start (or_length (get_elem? file.line_starts (suc index)) file.source_text)
      file.source_text)

unfoldable pub line : SourceFile → ℕ → Fallible (Option Text)
unfolding line_from
line file zero = some none
line file (suc index) = line_from (get_elem? file.line_starts index) index file

unfoldable pub slice : SourceFile → Span → Option Text
unfolding slice_bytes
slice file span =
    if not (span.source.index == file.id.index) || ltb span.end span.start
    then none
    else slice_bytes span.start span.end file.source_text

pub record SourceMap : Type 0 where
  pub files : List SourceFile

-- `add_inner`: more than `u32::MAX` files abort the program.
unfoldable pub add_inner : Text → Option Text → Text → SourceMap → Fallible (SourceId × SourceMap)
unfolding new_file
add_inner name path source_text m =
    let id : SourceId = record { index = length m.files } in
    if ltb (length m.files) (2 ^ 32)
    then some (id, record { files = m.files ++ new_file id name path source_text ∷ [] })
    else none

unfoldable pub add : Text → Text → SourceMap → Fallible (SourceId × SourceMap)
unfolding add_inner
add name source_text m = add_inner name none source_text m

unfoldable pub name_or_script : Option Text → Text
name_or_script none = text "<script>"
name_or_script (some name) = name

-- The name in a path is a function of the standard library.
unfoldable pub add_path :
    (file_name : Text → Option Text) → Text → Text → SourceMap → Fallible (SourceId × SourceMap)
unfolding add_inner name_or_script
add_path file_name path source_text m =
    add_inner (name_or_script (file_name path)) (some path) source_text m

unfoldable pub get_file : SourceMap → SourceId → Option SourceFile
get_file m id = get_elem? m.files id.index

unfoldable pub has_path : Text → Option Text → Bool
has_path path none = false
has_path path (some p) = text_eq p path

unfoldable pub find_path : Text → List SourceFile → Option SourceFile
unfolding has_path
find_path path [] = none
find_path path (f ∷ fs) =
    let rest = find_path path fs in if has_path path f.path then some f else rest

unfoldable pub get_by_path : SourceMap → Text → Option SourceFile
unfolding find_path
get_by_path m path = find_path path m.files

unfoldable pub slice_of : Option SourceFile → Span → Option Text
unfolding slice
slice_of none span = none
slice_of (some f) span = slice f span

unfoldable pub span_text : SourceMap → Span → Option Text
unfolding get_file slice_of
span_text m span = slice_of (get_file m span.source) span
