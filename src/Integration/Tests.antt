-- ===== src/Integration/Tests.antt =====
-- src/integration.rs: globs, events, mappings and options at concrete inputs, and the theorems there.
use vim_script.Prelude.{
  ℕ, ◌≡◌, ◌⊎◌, refl, Bool, true, false, Option, none, some, [], ◌∷◌, Text, text, pos, text_eq,
  if◌then◌else◌, find, store, contains_char,
}
use vim_script.Ast.{MapMode, MappingOptions}
use vim_script.Runtime.Value.{Value}
use vim_script.Runtime.Error.{ok, err}
use vim_script.Integration.Globs.{glob, glob_loop, glob_fuel, vim_glob_matches}
use vim_script.Integration.Globs.Ends.{vim_glob_matches-glob, lone_star-refused}
use vim_script.Integration.Events.{
  Event, EventHandler, EventAction, EventBus, retain, stays, handlers_for, subject_of,
}
use vim_script.Integration.Events.Laws.{handlers_for-once}
use vim_script.Integration.Keymaps.{
  CompiledMapping, MappingExpansion, KeymapStore, register_mapping, unmap, resolve_mapping, or_else,
}
use vim_script.Integration.Keymaps.View.{view, registered, unmapped, keymaps-refine}
use vim_script.Integration.Options.{
  OptionKind, OptionValueScope, OptionDefinition, OptionScope, OptionStore, is_of_kind,
  validate_option_value, validate_scope, scope_accepts, definition, first_definition, find_short,
  has_short, define, define_valid, add_definition, taken, defined_at, get_option, set_option,
  reset_option, value_or_global,
}
use vim_script.Integration.Options.Kept.{empty_store, Reached}
use vim_script.Integration.Options.Reads.{
  get_option-kind, unset_value, wrong_kind, get-set_option, get-reset_option,
}

glob_matches : vim_glob_matches (text "*.r?") (text "lib.rs") ≡ true
unfolding vim_glob_matches
glob_matches = refl

vim_glob_matches-glob_example :
    ((b : Bool) × (glob_loop
          (glob_fuel (text "*.r?") (text "lib.rs"))
          (text "*.r?")
          (text "lib.rs")
          none
        ≡ some b))
    × (vim_glob_matches (text "*.r?") (text "lib.rs") ≡ glob (text "*.r?") (text "lib.rs"))
unfolding contains_char
vim_glob_matches-glob_example = vim_glob_matches-glob (text "*.r?") (text "lib.rs") refl

lone_star-refused_example :
    (glob (text "*") (text "*.rs") ≡ true) × (vim_glob_matches (text "*") (text "*.rs") ≡ false)
lone_star-refused_example = lone_star-refused b'.' (text "rs")

abbrev handler : EventHandler
handler = record {
  id = 3;
  group = some (text "group");
  event = text "BufRead";
  patterns = text "*.rs" ∷ [];
  action = EventAction.command (record {
    modifiers = [];
    range = none;
    name = text "edit";
    bang = false;
    count = none;
    register = none;
    arguments = [];
  });
  once = true;
  nested = false;
}

abbrev bus : EventBus
bus = record { handlers = (text "BufRead", handler ∷ []) ∷ [] }

abbrev reading : Event
reading = record { name = text "BufRead"; pattern = some (text "lib.rs"); payload = [] }

handlers_for-once_example : (handlers_for reading (handlers_for reading bus).1).0 ≡ (
    if text_eq reading.name reading.name
    then retain (stays (subject_of reading.pattern)) (handlers_for reading bus).0
    else (handlers_for reading bus).0)
handlers_for-once_example = handlers_for-once reading reading bus

abbrev no_options : MappingOptions
no_options = record {
  non_recursive = false;
  silent = false;
  nowait = false;
  expr = false;
  buffer_local = false;
  unique = false;
  script = false;
}

abbrev mapping : CompiledMapping
mapping = record {
  id = 1;
  modes = MapMode.normal ∷ MapMode.visual ∷ [];
  lhs = text "gx";
  expansion = MappingExpansion.keys (text "dd");
  options = no_options;
  buffer = some 4;
}

abbrev keymaps : KeymapStore
keymaps = record { global = ((MapMode.normal, text "gx"), mapping) ∷ []; buffer_local = [] }

keymaps-refine_example :
    ((m : CompiledMapping) → view (register_mapping m keymaps) ≡ registered m (view keymaps))
    × ((at : Option ℕ) (mode : MapMode) (lhs : Text)
        → (view (unmap mode lhs at keymaps).1 ≡ unmapped at (mode, lhs) (view keymaps))
          × ((unmap mode lhs at keymaps).0 ≡ view keymaps at (mode, lhs)))
    × ((buffer : Option ℕ) (mode : MapMode) (lhs : Text)
        → resolve_mapping mode lhs buffer keymaps
          ≡ or_else (view keymaps buffer (mode, lhs)) (view keymaps none (mode, lhs)))
keymaps-refine_example = keymaps-refine keymaps

abbrev tabstop : OptionDefinition
tabstop = record {
  name = text "tabstop";
  short_name = some (text "ts");
  kind = OptionKind.number;
  scope = OptionValueScope.global_buffer;
  default = Value.integer (pos 8);
}

abbrev options : OptionStore
options = (define tabstop empty_store).1

options-Reached : Reached options
options-Reached = Reached.defines tabstop empty_store (Reached.start empty_store refl)

tabstop_defined : defined_at (text "ts") (OptionScope.buffer 2) options ≡ ok tabstop
unfolding defined_at definition first_definition find_short has_short define define_valid
    add_definition validate_option_value is_of_kind taken find store text_eq validate_scope
    scope_accepts
tabstop_defined = refl

get_option-kind_example :
    (v : Value) × (get_option (text "ts") (OptionScope.buffer 2) options ≡ ok v)
    × (is_of_kind tabstop.kind v ≡ true)
get_option-kind_example =
    get_option-kind options (text "ts") (OptionScope.buffer 2) tabstop options-Reached
      tabstop_defined

get-set_option_example :
    ((is_of_kind tabstop.kind (Value.integer (pos 4)) ≡ true)
      × ((set_option (text "ts") (OptionScope.buffer 2) (Value.integer (pos 4)) options).0 ≡ ok tt)
      × (get_option
            (text "ts")
            (OptionScope.buffer 2)
            (set_option (text "ts") (OptionScope.buffer 2) (Value.integer (pos 4)) options).1
          ≡ ok (Value.integer (pos 4))))
    ⊎ ((is_of_kind tabstop.kind (Value.integer (pos 4)) ≡ false)
        × (set_option (text "ts") (OptionScope.buffer 2) (Value.integer (pos 4)) options
            ≡ (err (wrong_kind tabstop), options)))
get-set_option_example =
    get-set_option (text "ts") (OptionScope.buffer 2) tabstop options tabstop_defined
      (Value.integer (pos 4))

get-reset_option_example :
    ((reset_option (text "ts") (OptionScope.buffer 2) options).0 ≡ ok tt)
    × (get_option
          (text "ts")
          (OptionScope.buffer 2)
          (reset_option (text "ts") (OptionScope.buffer 2) options).1
        ≡ value_or_global tabstop.name none (unset_value (OptionScope.buffer 2) tabstop options))
get-reset_option_example =
    get-reset_option (text "ts") (OptionScope.buffer 2) tabstop options tabstop_defined
