-- ===== src/Host/Kept.antt =====
-- src/host.rs: the registration commands and the user commands.
use vim_script.Prelude.{
  ◌≡◌, refl, inl, inr, ℕ, Bool, true, false, Option, none, some, List, [], ◌∷◌, Text, arith, length,
  trim_start, drop,
}
use vim_script.Ast.{ExCommand, MapMode, MappingOptions}
use vim_script.Host.Words.{split_char, until_whitespace}
use vim_script.Runtime.Error.{Result, ok, err, panic, Result-cases}
use vim_script.Host.{CommandRequest, HostContext}
use vim_script.Host.Dispatch.{HostRuntime}
use vim_script.Host.MapNames.{ModesOf, mapping_modes}
use vim_script.Host.Mappings.{
  parse_mapping_options, remove_mapping, add_mapping, apply_mapping, map_with, handle_modes,
  handle_mapping, buffer_of,
}
use vim_script.Host.Autocommands.{
  handle_augroup, register_events, with_command, with_source, with_flags, add_autocmd, cleared,
  handle_autocmd, two_words, autocmd_flags,
}
use vim_script.Host.Methods.{handled, handle_registration_command}

register_events-commands :
    (events patterns : List Text) (command : ExCommand) (once nested : Bool) (h : HostRuntime)
    → (register_events events patterns command once nested h).user_commands ≡ h.user_commands
unfolding register_events
register_events-commands [] patterns command once nested h = refl
register_events-commands (event ∷ events) patterns command once nested h =
    register_events-commands events patterns command once nested _

with_command-commands :
    (events patterns : Text) (once nested : Bool) (r : Result ExCommand) (h : HostRuntime)
    → (with_command events patterns once nested r h).1.user_commands ≡ h.user_commands
unfolding with_command
with_command-commands events patterns once nested (ok command) h =
    register_events-commands (split_char b',' events) (split_char b',' patterns) command once nested
      h
with_command-commands events patterns once nested (err e) h = refl
with_command-commands events patterns once nested panic h = refl

with_source-commands :
    (events patterns : Text) (once nested : Bool) (s : Text) (h : HostRuntime)
    → (with_source events patterns once nested s h).1.user_commands ≡ h.user_commands
unfolding with_source
with_source-commands events patterns once nested [] h = refl
with_source-commands events patterns once nested (c ∷ s) h =
    with_command-commands events patterns once nested _ h

add_autocmd-commands :
    (r : Result (Text × (Text × Text))) (h : HostRuntime)
    → (add_autocmd r h).1.user_commands ≡ h.user_commands
unfolding add_autocmd with_flags
add_autocmd-commands (ok (events, (patterns, rest))) h =
    let flags = autocmd_flags (length rest) false false rest in
    with_source-commands events patterns flags.0 flags.1.0 (trim_start flags.1.1) h
add_autocmd-commands (err e) h = refl
add_autocmd-commands panic h = refl

cleared-commands :
    (bang : Bool) (h : HostRuntime) → (cleared bang h).user_commands ≡ h.user_commands
unfolding cleared
cleared-commands true h = refl
cleared-commands false h = refl

handle_autocmd-commands :
    (request : CommandRequest) (h : HostRuntime)
    → (handle_autocmd request h).1.user_commands ≡ h.user_commands
unfolding handle_autocmd
handle_autocmd-commands request h =
    let words = two_words request.command.arguments in
    ground (
      arith,
      cleared-commands request.command.bang h,
      add_autocmd-commands words (cleared request.command.bang h),
    )

add_mapping-commands :
    (modes : List MapMode) (nr : Bool) (o : MappingOptions) (lhs rhs : Text) (buffer : Option ℕ)
    (h : HostRuntime)
    → (add_mapping modes nr o lhs rhs buffer h).1.user_commands ≡ h.user_commands
unfolding add_mapping
add_mapping-commands modes nr o lhs [] buffer h = refl
add_mapping-commands modes nr o lhs (c ∷ rhs) buffer h = refl

apply_mapping-commands :
    (context : HostContext) (m : ModesOf) (o : MappingOptions) (w : Text × Text) (h : HostRuntime)
    → (apply_mapping context m o w h).1.user_commands ≡ h.user_commands
unfolding apply_mapping remove_mapping
apply_mapping-commands context m o ([], more) h = refl
apply_mapping-commands context (modes, (nr, removing)) o (c ∷ lhs, more) h =
    elim (Result-cases (buffer_of o.buffer_local context.current_buffer)) [
      | inl (buffer, own) ↦
          let rhs = trim_start (drop 1 more) in
          ground (arith, own, add_mapping-commands modes nr o (c ∷ lhs) rhs buffer h)
      | inr (inl (e, failed)) ↦ rw (failed, apply_mapping) refl
      | inr (inr aborts) ↦ rw (aborts, apply_mapping) refl
    ]

map_with-commands :
    (context : HostContext) (m : ModesOf) (r : Result (MappingOptions × Text)) (h : HostRuntime)
    → (map_with context m r h).1.user_commands ≡ h.user_commands
unfolding map_with
map_with-commands context m (ok (o, rest)) h =
    apply_mapping-commands context m o (until_whitespace rest) h
map_with-commands context m (err e) h = refl
map_with-commands context m panic h = refl

handle_modes-commands :
    (request : CommandRequest) (o : Option ModesOf) (h : HostRuntime)
    → (handle_modes request o h).1.user_commands ≡ h.user_commands
unfolding handle_modes
handle_modes-commands request none h = refl
handle_modes-commands request (some m) h =
    map_with-commands request.context m (parse_mapping_options request.command.arguments) h

handle_augroup-commands :
    (command : ExCommand) (h : HostRuntime)
    → (handle_augroup command h).1.user_commands ≡ h.user_commands
unfolding handle_augroup
handle_augroup-commands command h = ground arith

-- Mapping commands, `:autocmd` and `:augroup` keep the user commands.
pub handle_registration_command-commands :
    (request : CommandRequest) (h : HostRuntime)
    → (handle_registration_command request h).1.user_commands ≡ h.user_commands
unfolding handle_registration_command handled handle_mapping
handle_registration_command-commands request h = ground (
  arith,
  handle_augroup-commands request.command h,
  handle_autocmd-commands request h,
  handle_modes-commands request (mapping_modes request.command.name) h,
)
