-- ===== src/Integration/Events/Laws.antt =====
-- src/integration.rs: what the methods of an EventBus do to its handlers.
use vim_script.Prelude.{
  ℕ, ◌+◌, ◌≤◌, ◌≡◌, refl, Bool, true, List, [], ◌∷◌, Text, arith, text_eq, text_eq_iff, ◌==◌, find,
  find-store, find-erase, if◌then◌else◌, length, Option-cases, Bool-cases, inl, inr,
}
use vim_script.Integration.Events.{
  Event, EventHandler, Handlers, EventBus, retain, retain_each, drop_empty, handlers_of,
  outside_group, removed_each, remove_group, handler_matches, subject_of, stays, put_handlers,
  take_matching, handlers_for,
}

retain-retain :
    (p q : EventHandler → Bool) (hs : List EventHandler)
    → retain p (retain q hs) ≡ retain q (retain p hs)
unfolding retain
retain-retain p q [] = refl
retain-retain p q (h ∷ hs) = ground (arith, retain-retain p q hs)

find-put_handlers :
    (event j : Text) (hs : List EventHandler) (m : Handlers)
    → handlers_of (find text_eq j (put_handlers event hs m))
      ≡ (if text_eq event j then hs else handlers_of (find text_eq j m))
unfolding put_handlers handlers_of
find-put_handlers event j [] m = ground (arith, find-erase text_eq text_eq_iff event j m)
find-put_handlers event j (h ∷ hs) m =
    ground (arith, find-store text_eq text_eq_iff event j (h ∷ hs) m)

handlers_for-retain :
    (event : Event) (bus : EventBus)
    → (handlers_for event bus).0
      ≡ retain
          (handler_matches (subject_of event.pattern))
          (handlers_of (find text_eq event.name bus.handlers))
unfolding handlers_for take_matching handlers_of retain
handlers_for-retain event bus = elim (Option-cases (find text_eq event.name bus.handlers)) [
  | inl missing ↦ rw missing refl
  | inr (hs, found) ↦ rw found refl
]

find-handlers_for :
    (event : Event) (bus : EventBus) (j : Text)
    → handlers_of (find text_eq j (handlers_for event bus).1.handlers) ≡ (
        if text_eq event.name j
        then retain (stays (subject_of event.pattern)) (handlers_of (find text_eq j bus.handlers))
        else handlers_of (find text_eq j bus.handlers))
unfolding handlers_for take_matching handlers_of retain
find-handlers_for event bus j = elim (Option-cases (find text_eq event.name bus.handlers)) [
  | inl missing ↦ ground (arith, missing, text_eq_iff event.name j)
  | inr (hs, found) ↦ ground (
    arith,
    found,
    text_eq_iff event.name j,
    find-put_handlers event.name j (retain (stays (subject_of event.pattern)) hs) bus.handlers,
  )
]

-- Once `handlers_for` has answered an event, a later event of the same name gets the handlers that it
-- would have got before, less those that match the first event and are for one time only; and an
-- event of another name gets what it would have got before.
pub handlers_for-once :
    (first later : Event) (bus : EventBus)
    → (handlers_for later (handlers_for first bus).1).0 ≡ (
        if text_eq first.name later.name
        then retain (stays (subject_of first.pattern)) (handlers_for later bus).0
        else (handlers_for later bus).0)
handlers_for-once first later bus =
    let earlier = handlers_of (find text_eq later.name bus.handlers) in
    let matches = handler_matches (subject_of later.pattern) in
    ground (
      arith,
      handlers_for-retain later (handlers_for first bus).1,
      handlers_for-retain later bus,
      find-handlers_for first bus later.name,
      retain-retain matches (stays (subject_of first.pattern)) earlier,
    )

-- How many handlers have an id.
unfoldable pub count_in : ℕ → List EventHandler → ℕ
count_in id [] = 0
count_in id (h ∷ hs) = (if h.id == id then 1 else 0) + count_in id hs

unfoldable pub count_id : ℕ → Handlers → ℕ
unfolding count_in
count_id id [] = 0
count_id id ((event, hs) ∷ m) = count_in id hs + count_id id m

unfoldable pub total : Handlers → ℕ
total [] = 0
total ((event, hs) ∷ m) = length hs + total m

-- No handler of a list, or of the bus, is in a group.
abbrev pub AllOutside : Text → List EventHandler → Type 0
AllOutside group [] = Unit {0}
AllOutside group (h ∷ hs) = (outside_group group h ≡ true) × AllOutside group hs

abbrev pub NoneIn : Text → Handlers → Type 0
NoneIn group [] = Unit {0}
NoneIn group ((event, hs) ∷ m) = AllOutside group hs × NoneIn group m

length-retain :
    (p : EventHandler → Bool) (hs : List EventHandler) → length (retain p hs) ≤ length hs
unfolding retain
length-retain p [] = omega arith
length-retain p (h ∷ hs) = ground (arith, length-retain p hs)

removed-total :
    (p : EventHandler → Bool) (m : Handlers) → removed_each p m + total (retain_each p m) ≡ total m
unfolding removed_each retain_each total
removed-total p [] = refl
removed-total p ((event, hs) ∷ m) = omega (arith, length-retain p hs, removed-total p m)

total-drop_empty : (m : Handlers) → total (drop_empty m) ≡ total m
unfolding drop_empty total
total-drop_empty [] = refl
total-drop_empty ((event, []) ∷ m) = omega (arith, total-drop_empty m)
total-drop_empty ((event, h ∷ hs) ∷ m) = omega (arith, total-drop_empty m)

retain-AllOutside :
    (group : Text) (hs : List EventHandler) → AllOutside group (retain (outside_group group) hs)
unfolding retain
retain-AllOutside group [] = tt
retain-AllOutside group (h ∷ hs) = elim (Bool-cases (outside_group group h)) [
  | inl out ↦ rw out (out, retain-AllOutside group hs)
  | inr within ↦ rw within (retain-AllOutside group hs)
]

cons-NoneIn :
    (group event : Text) (hs : List EventHandler) (m : Handlers)
    → AllOutside group hs
    → NoneIn group (drop_empty m)
    → NoneIn group (drop_empty ((event, hs) ∷ m))
unfolding drop_empty
cons-NoneIn group event [] m out rest = rest
cons-NoneIn group event (h ∷ hs) m out rest = (out, rest)

drop_empty-NoneIn :
    (group : Text) (m : Handlers) → NoneIn group (drop_empty (retain_each (outside_group group) m))
unfolding retain_each drop_empty
drop_empty-NoneIn group [] = tt
drop_empty-NoneIn group ((event, hs) ∷ m) =
    cons-NoneIn group event (retain (outside_group group) hs) (retain_each (outside_group group) m)
      (retain-AllOutside group hs) (drop_empty-NoneIn group m)

-- `remove_group` returns the number of handlers that it takes from the bus, and leaves none of
-- the group.
remove_group-removed :
    (group : Text) (bus : EventBus)
    → ((remove_group group bus).0 + total (remove_group group bus).1.handlers ≡ total bus.handlers)
      × NoneIn group (remove_group group bus).1.handlers
unfolding remove_group
remove_group-removed group bus = (
  omega (
    arith,
    removed-total (outside_group group) bus.handlers,
    total-drop_empty (retain_each (outside_group group) bus.handlers),
  ),
  drop_empty-NoneIn group bus.handlers,
)
