-- ===== src/Host/Autocommands.antt =====
-- src/host.rs: handle_augroup, handle_autocmd and event_commands.
use vim_script.Prelude.{
  ℕ, zero, suc, ◌+◌, Bool, true, false, Option, none, some, List, [], ◌∷◌, Text, text, text_eq,
  if◌then◌else◌, length, trim, trim_start,
}
use vim_script.Ast.{ExCommand}
use vim_script.ExParser.Parse.{parse_ex}
use vim_script.Integration.Events.{
  Event, EventAction, EventHandler, EventBus, register_handler, remove_group, handlers_for,
}
use vim_script.Runtime.Error.{Result, ok, err, panic}
use vim_script.Host.{HostContext, CommandRequest}
use vim_script.Host.Words.{word_at, split_char}
use vim_script.Host.UserCommands.{invalid_command, command_of}
use vim_script.Host.Dispatch.{HostRuntime}

unfoldable pub handle_augroup : ExCommand → HostRuntime → Result (Unit {0}) × HostRuntime
unfolding invalid_command
handle_augroup command h = elim (trim command.arguments) [
  | [] ↦ (err (invalid_command (text "E471") (text "augroup requires a name")), h)
  | c ∷ group ↦ (
    ok tt,
    record h {
      current_augroup = if text_eq (c ∷ group) (text "END") then none else some (c ∷ group);
    },
  )
]

-- What `:autocmd!` takes away: the handlers of the current group, or all of them.
unfoldable pub clear_handlers : Option Text → EventBus → EventBus
clear_handlers none bus = record { handlers = [] }
clear_handlers (some group) bus = (remove_group group bus).1

unfoldable pub autocmd_error : Text → Result (Text × (Text × Text))
unfolding invalid_command
autocmd_error message = err (invalid_command (text "E216") message)

-- The words of the events and of the patterns, and what follows them.
unfoldable pub two_words : Text → Result (Text × (Text × Text))
unfolding word_at autocmd_error
two_words s = elim (word_at s) [
  | none ↦ autocmd_error (text "autocmd requires an event")
  | some (events, after) ↦ elim (word_at after) [
    | none ↦ autocmd_error (text "autocmd requires a pattern")
    | some (patterns, rest) ↦ ok (events, (patterns, rest))
  ]
]

-- The loop over the flags, with as many rounds as the fuel; each takes a word.
unfoldable pub autocmd_flags : (fuel : ℕ) (once nested : Bool) → Text → Bool × (Bool × Text)
unfolding word_at
autocmd_flags zero once nested s = (once, (nested, s))
autocmd_flags (suc fuel) once nested s = elim (word_at s) [
  | none ↦ (once, (nested, s))
  | some (flag, rest) ↦
      let with_once = autocmd_flags fuel true nested rest in
      let with_nested = autocmd_flags fuel once true rest in
      if text_eq flag (text "++once")
      then with_once
      else if text_eq flag (text "++nested")
      then with_nested
      else (once, (nested, s))
]

unfoldable pub new_handler :
    ℕ → Option Text → Text → List Text → ExCommand → (once nested : Bool) → EventHandler
new_handler id group event patterns command once nested = record {
  id = id;
  group = group;
  event = event;
  patterns = patterns;
  action = EventAction.command command;
  once = once;
  nested = nested;
}

-- The loop over the events of an `:autocmd`.
unfoldable pub register_events :
    List Text → List Text → ExCommand → (once nested : Bool) → HostRuntime → HostRuntime
unfolding new_handler
register_events [] patterns command once nested h = h
register_events (event ∷ events) patterns command once nested h =
    register_events events patterns command once nested (record h {
      next_event_handler_id = h.next_event_handler_id + 1;
      events =
          register_handler
            (new_handler h.next_event_handler_id h.current_augroup event patterns command once
              nested)
            h.events;
    })

unfoldable pub with_command :
    Text
    → Text
    → (once nested : Bool) → Result ExCommand
    → HostRuntime
    → Result (Unit {0}) × HostRuntime
unfolding register_events split_char
with_command events patterns once nested (ok command) h = (
  ok tt,
  register_events (split_char b',' events) (split_char b',' patterns) command once nested h,
)
with_command events patterns once nested (err e) h = (err e, h)
with_command events patterns once nested panic h = (panic, h)

-- The text of the command, which the Ex parser reads.
unfoldable pub with_source :
    Text → Text → (once nested : Bool) → Text → HostRuntime → Result (Unit {0}) × HostRuntime
unfolding with_command command_of parse_ex invalid_command
with_source events patterns once nested [] h =
    (err (invalid_command (text "E216") (text "autocmd requires a command")), h)
with_source events patterns once nested (c ∷ s) h =
    with_command events patterns once nested
      (command_of (parse_ex (record { index = 0 }) (c ∷ s) 0)) h

unfoldable pub with_flags :
    Text → Text → Bool × (Bool × Text) → HostRuntime → Result (Unit {0}) × HostRuntime
unfolding with_source
with_flags events patterns (once, (nested, rest)) h =
    with_source events patterns once nested (trim_start rest) h

unfoldable pub add_autocmd :
    Result (Text × (Text × Text)) → HostRuntime → Result (Unit {0}) × HostRuntime
unfolding with_flags autocmd_flags
add_autocmd (ok (events, (patterns, rest))) h =
    with_flags events patterns (autocmd_flags (length rest) false false rest) h
add_autocmd (err e) h = (err e, h)
add_autocmd panic h = (panic, h)

unfoldable pub cleared : Bool → HostRuntime → HostRuntime
unfolding clear_handlers
cleared false h = h
cleared true h = record h { events = clear_handlers h.current_augroup h.events }

unfoldable pub handle_autocmd : CommandRequest → HostRuntime → Result (Unit {0}) × HostRuntime
unfolding add_autocmd two_words cleared
handle_autocmd request h =
    let h' = cleared request.command.bang h in
    let added = add_autocmd (two_words request.command.arguments) h' in
    if request.command.bang
    then elim (trim request.command.arguments) [ [] ↦ (ok tt, h') | c ∷ s ↦ added ]
    else added

unfoldable pub commands_of : HostContext → List EventHandler → List CommandRequest
commands_of context [] = []
commands_of context (handler ∷ handlers) = elim handler.action [
  | EventAction.bytecode m ↦ commands_of context handlers
  | EventAction.command c ↦ record { command = c; context = context } ∷ commands_of context handlers
]

unfoldable pub event_commands :
    Event → HostContext → HostRuntime → List CommandRequest × HostRuntime
unfolding commands_of
event_commands event context h =
    let found = handlers_for event h.events in
    (commands_of context found.0, record h { events = found.1 })
