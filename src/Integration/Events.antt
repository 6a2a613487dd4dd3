-- ===== src/Integration/Events.antt =====
-- src/integration.rs: EventBus.
pub mod Laws
use vim_script.Prelude.{
  ℕ, ◌+◌, ◌-◌, Bool, true, false, not, ◌&&◌, ◌||◌, Option, none, some, List, [], ◌∷◌, ◌++◌, Text,
  text_eq, ◌==◌, find, store, erase, if◌then◌else◌, length,
}
use vim_script.Ast.{ExCommand}
use vim_script.Bytecode.{BytecodeModule}
use vim_script.Runtime.Value.{Value}
use vim_script.Integration.Globs.{vim_glob_matches}

pub record Event : Type 0 where
  pub name : Text
  pub pattern : Option Text
  pub payload : List (Text × Value)

pub data EventAction : Type 0 where
  bytecode : BytecodeModule → EventAction
  command : ExCommand → EventAction

pub record EventHandler : Type 0 where
  pub id : ℕ
  pub group : Option Text
  pub event : Text
  pub patterns : List Text
  pub action : EventAction
  pub once : Bool
  pub nested : Bool

abbrev pub Handlers : Type 0
Handlers = List (Text × List EventHandler)

pub record EventBus : Type 0 where
  pub handlers : Handlers

-- `Vec::retain`
unfoldable pub retain : (EventHandler → Bool) → List EventHandler → List EventHandler
retain keep [] = []
retain keep (h ∷ hs) = let rest = retain keep hs in if keep h then h ∷ rest else rest

-- `values_mut` and a `retain` of each
unfoldable pub retain_each : (EventHandler → Bool) → Handlers → Handlers
unfolding retain
retain_each keep [] = []
retain_each keep ((event, hs) ∷ m) = (event, retain keep hs) ∷ retain_each keep m

unfoldable pub drop_empty : Handlers → Handlers
drop_empty [] = []
drop_empty ((event, []) ∷ m) = drop_empty m
drop_empty ((event, h ∷ hs) ∷ m) = (event, h ∷ hs) ∷ drop_empty m

unfoldable pub handlers_of : Option (List EventHandler) → List EventHandler
handlers_of none = []
handlers_of (some hs) = hs

unfoldable pub differs_from : EventHandler → EventHandler → Bool
differs_from handler existing = not (existing.id == handler.id)

unfoldable pub register_handler : EventHandler → EventBus → EventBus
unfolding retain_each drop_empty handlers_of differs_from
register_handler handler bus =
    let others = retain_each (differs_from handler) bus.handlers in
    let same_event = handlers_of (find text_eq handler.event others) in
    record {
      handlers = drop_empty (store text_eq handler.event (same_event ++ handler ∷ []) others);
    }

unfoldable pub group_is : Text → Option Text → Bool
group_is group none = false
group_is group (some g) = text_eq g group

unfoldable pub outside_group : Text → EventHandler → Bool
unfolding group_is
outside_group group h = not (group_is group h.group)

-- The number of handlers that `retain` has removed from all the lists.
unfoldable pub removed_each : (EventHandler → Bool) → Handlers → ℕ
unfolding retain
removed_each keep [] = 0
removed_each keep ((event, hs) ∷ m) = (length hs - length (retain keep hs)) + removed_each keep m

unfoldable pub remove_group : Text → EventBus → ℕ × EventBus
unfolding retain_each drop_empty removed_each outside_group
remove_group group bus = (
  removed_each (outside_group group) bus.handlers,
  record { handlers = drop_empty (retain_each (outside_group group) bus.handlers) },
)

unfoldable pub any_matches : List Text → Text → Bool
any_matches [] subject = false
any_matches (p ∷ ps) subject = vim_glob_matches p subject || any_matches ps subject

unfoldable pub handler_matches : Text → EventHandler → Bool
unfolding any_matches
handler_matches subject h = elim h.patterns [ [] ↦ true | p ∷ ps ↦ any_matches (p ∷ ps) subject ]

unfoldable pub subject_of : Option Text → Text
subject_of none = []
subject_of (some s) = s

unfoldable pub stays : Text → EventHandler → Bool
unfolding handler_matches
stays subject h = not (handler_matches subject h && h.once)

-- The list of an event goes when it has become empty.
unfoldable pub put_handlers : Text → List EventHandler → Handlers → Handlers
put_handlers event [] m = erase text_eq event m
put_handlers event (h ∷ hs) m = store text_eq event (h ∷ hs) m

unfoldable pub take_matching :
    Text → Text → Option (List EventHandler) → EventBus → List EventHandler × EventBus
unfolding retain put_handlers stays
take_matching event subject none bus = ([], bus)
take_matching event subject (some hs) bus = (
  retain (handler_matches subject) hs,
  record { handlers = put_handlers event (retain (stays subject) hs) bus.handlers },
)

unfoldable pub handlers_for : Event → EventBus → List EventHandler × EventBus
unfolding take_matching subject_of
handlers_for event bus =
    take_matching event.name (subject_of event.pattern) (find text_eq event.name bus.handlers) bus
