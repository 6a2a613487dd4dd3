-- ===== src/Host/Mappings.antt =====
-- src/host.rs: parse_mapping_options and handle_mapping.
use vim_script.Prelude.{
  ℕ, zero, suc, ◌+◌, Bool, true, false, ◌||◌, Option, none, some, List, [], ◌∷◌, ◌++◌, Text, text,
  text_eq, ◌==◌, if◌then◌else◌, length, is_some, drop, trim_start,
}
use vim_script.Ast.{MapMode, MappingOptions}
use vim_script.Integration.Keymaps.{
  MappingExpansion, CompiledMapping, KeymapStore, register_mapping, unmap,
}
use vim_script.Runtime.Error.{RuntimeErrorKind, Result, ok, err, panic, coded}
use vim_script.Host.{HostContext, CommandRequest}
use vim_script.Host.Words.{until_whitespace, to_ascii_lowercase}
use vim_script.Host.UserCommands.{invalid_command}
use vim_script.Host.Dispatch.{HostRuntime}
use vim_script.Host.MapNames.{ModesOf, mapping_modes}

-- The text before the first `d`, and the text after it.
unfoldable pub until_char : ℕ → Text → Option (Text × Text)
until_char d [] = none
until_char d (c ∷ s) =
    let more : Option (Text × Text) = elim (until_char d s) [
      | none ↦ none
      | some (w, rest) ↦ some (c ∷ w, rest)
    ] in
    if c == d then some ([], s) else more

unfoldable pub no_options : MappingOptions
no_options = record {
  non_recursive = false;
  silent = false;
  nowait = false;
  expr = false;
  buffer_local = false;
  unique = false;
  script = false;
}

unfoldable pub mapping_option : Text → MappingOptions → Option MappingOptions
mapping_option attribute o =
    if text_eq attribute (text "buffer")
    then some (record o { buffer_local = true })
    else if text_eq attribute (text "silent")
    then some (record o { silent = true })
    else if text_eq attribute (text "expr")
    then some (record o { expr = true })
    else if text_eq attribute (text "nowait")
    then some (record o { nowait = true })
    else if text_eq attribute (text "unique")
    then some (record o { unique = true })
    else if text_eq attribute (text "script")
    then some (record o { script = true })
    else none

-- One round over the rest of the arguments: an attribute that is known, and what follows it, or
-- the end of the loop.
unfoldable pub mapping_attribute : MappingOptions → Text → Result (Option (MappingOptions × Text))
unfolding invalid_command mapping_option until_char to_ascii_lowercase
mapping_attribute o [] = ok none
mapping_attribute o (c ∷ s) =
    let attribute : Result (Option (MappingOptions × Text)) = elim (until_char b'>' s) [
      | none ↦ err (invalid_command (text "E475") (text "unterminated mapping attribute"))
      | some (w, after) ↦ elim (mapping_option (to_ascii_lowercase w) o) [
        | none ↦ ok none
        | some o' ↦ ok (some (o', trim_start after))
      ]
    ] in
    if c == b'<' then attribute else ok none

-- The loop, with as many rounds as the fuel.
unfoldable pub mapping_options_loop :
    (fuel : ℕ) → MappingOptions → Text → Result (MappingOptions × Text)
unfolding mapping_attribute
mapping_options_loop zero o s = ok (o, s)
mapping_options_loop (suc fuel) o s = elim (mapping_attribute o s) [
  | err e ↦ err e
  | panic ↦ panic
  | ok next ↦ elim next [ none ↦ ok (o, s) | some (o', rest) ↦ mapping_options_loop fuel o' rest ]
]

-- Each round takes a character at least.
unfoldable pub parse_mapping_options : Text → Result (MappingOptions × Text)
unfolding mapping_options_loop no_options
parse_mapping_options arguments =
    mapping_options_loop (length arguments) no_options (trim_start arguments)

unfoldable pub buffer_of : Bool → Option ℕ → Result (Option ℕ)
buffer_of false current = ok none
buffer_of true (some b) = ok (some b)
buffer_of true none = err (
    coded (text "E86") RuntimeErrorKind.host_error
      (text "buffer-local mapping requires a current buffer"))

-- The loop over the modes of an `:unmap`, and whether it has removed any.
unfoldable pub unmap_modes : List MapMode → Text → Option ℕ → KeymapStore → Bool × KeymapStore
unmap_modes [] lhs buffer s = (false, s)
unmap_modes (mode ∷ modes) lhs buffer s =
    let one = unmap mode lhs buffer s in
    let more = unmap_modes modes lhs buffer one.1 in (is_some one.0 || more.0, more.1)

unfoldable pub remove_mapping :
    List MapMode → Text → Option ℕ → HostRuntime → Result (Unit {0}) × HostRuntime
unfolding unmap_modes invalid_command
remove_mapping modes lhs buffer h =
    let after = unmap_modes modes lhs buffer h.keymaps in
    (
      if after.0
          then ok tt
          else err (invalid_command (text "E31") (text "no such mapping: " ++ lhs)),
      record h { keymaps = after.1 },
    )

unfoldable pub expansion_of : Text → MappingExpansion
unfolding to_ascii_lowercase
expansion_of rhs =
    if text_eq (to_ascii_lowercase rhs) (text "<nop>")
    then MappingExpansion.no_op
    else MappingExpansion.keys rhs

unfoldable pub new_mapping :
    ℕ → List MapMode → Bool → MappingOptions → Text → Text → Option ℕ → CompiledMapping
unfolding expansion_of
new_mapping id modes non_recursive o lhs rhs buffer = record {
  id = id;
  modes = modes;
  lhs = lhs;
  expansion = expansion_of rhs;
  options = record o { non_recursive = o.non_recursive || non_recursive };
  buffer = buffer;
}

unfoldable pub add_mapping :
    List MapMode
    → Bool
    → MappingOptions
    → Text
    → Text
    → Option ℕ
    → HostRuntime
    → Result (Unit {0}) × HostRuntime
unfolding new_mapping invalid_command
add_mapping modes non_recursive o lhs [] buffer h =
    (err (invalid_command (text "E471") (text "mapping requires a right-hand side")), h)
add_mapping modes non_recursive o lhs (c ∷ rhs) buffer h = (
  ok tt,
  record h {
    next_mapping_id = h.next_mapping_id + 1;
    keymaps =
        register_mapping (new_mapping h.next_mapping_id modes non_recursive o lhs (c ∷ rhs) buffer)
          h.keymaps;
  },
)

-- The command with its left-hand side and the rest of its arguments.
unfoldable pub apply_mapping :
    HostContext
    → ModesOf
    → MappingOptions
    → Text × Text
    → HostRuntime
    → Result (Unit {0}) × HostRuntime
unfolding remove_mapping add_mapping buffer_of invalid_command
apply_mapping context m o ([], more) h =
    (err (invalid_command (text "E471") (text "mapping requires a left-hand side")), h)
apply_mapping context (modes, (non_recursive, removing)) o (c ∷ lhs, more) h =
    elim (buffer_of o.buffer_local context.current_buffer) [
      | err e ↦ (err e, h)
      | panic ↦ (panic, h)
      | ok buffer ↦
          if removing
          then remove_mapping modes (c ∷ lhs) buffer h
          else add_mapping modes non_recursive o (c ∷ lhs) (trim_start (drop 1 more)) buffer h
    ]

unfoldable pub map_with :
    HostContext
    → ModesOf
    → Result (MappingOptions × Text)
    → HostRuntime
    → Result (Unit {0}) × HostRuntime
unfolding apply_mapping until_whitespace
map_with context m (ok (o, rest)) h = apply_mapping context m o (until_whitespace rest) h
map_with context m (err e) h = (err e, h)
map_with context m panic h = (panic, h)

unfoldable pub handle_modes :
    CommandRequest → Option ModesOf → HostRuntime → Result (Unit {0}) × HostRuntime
unfolding map_with parse_mapping_options
handle_modes request none h = (panic, h)
handle_modes request (some m) h =
    map_with request.context m (parse_mapping_options request.command.arguments) h

unfoldable pub handle_mapping : CommandRequest → HostRuntime → Result (Unit {0}) × HostRuntime
unfolding handle_modes mapping_modes
handle_mapping request h = handle_modes request (mapping_modes request.command.name) h
