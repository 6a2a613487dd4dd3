-- ===== src/Integration/Keymaps/View.antt =====
-- src/integration.rs: a KeymapStore as a function from a target and a key to the mapping there. A
-- target is a buffer's own table, or the global one.
use mathlib.Core.Path.{fun_ext}
use vim_script.Prelude.{
  ℕ, ◌≡◌, refl, sym, Bool, true, false, ◌&&◌, ◌||◌, Option, none, some, List, [], ◌∷◌, Text, arith,
  text_eq, text_eq_iff, ◌==◌, ==_iff, find, store, erase, find-store, find-erase, Decides,
  if◌then◌else◌, Option-cases, inl, inr,
}
use vim_script.Ast.{MapMode}
use vim_script.Integration.Keymaps.{
  CompiledMapping, mode_index, Key, key_eq, same_buffer, Mappings, KeymapStore, or_empty,
  insert_modes, register_in, register_mapping, put_back, unmap_in, unmap, local_mapping, or_else,
  resolve_mapping,
}

abbrev pub View : Type 0
View = Option ℕ → Key → Option CompiledMapping

unfoldable pub view : KeymapStore → View
view s none key = find key_eq key s.global
view s (some buffer) key = find key_eq key (or_empty (find same_buffer buffer s.buffer_local))

abbrev pub same_target : Option ℕ → Option ℕ → Bool
same_target none none = true
same_target (some a) (some b) = a == b
same_target _ _ = false

abbrev pub has_mode : MapMode → List MapMode → Bool
has_mode m [] = false
has_mode m (n ∷ ns) = (mode_index m == mode_index n) || has_mode m ns

-- What the methods do to the function: `register` sets the mapping's target at its left-hand side
-- for each of its modes, `unmap` clears one key of one target, and a key resolves to the mapping
-- of the buffer, or else to the global one.
unfoldable pub registered : CompiledMapping → View → View
registered mapping f target (mode, lhs) =
    if same_target mapping.buffer target && (has_mode mode mapping.modes && text_eq mapping.lhs lhs)
    then some mapping
    else f target (mode, lhs)

unfoldable pub unmapped : Option ℕ → Key → View → View
unmapped at key f target k = if same_target at target && key_eq key k then none else f target k

mode_index-injective : (m n : MapMode) → mode_index m ≡ mode_index n → m ≡ n
unfolding mode_index
mode_index-injective m n e = ground arith

key_eq-Decides : Decides key_eq
unfolding key_eq
key_eq-Decides (m, s) (n, t) = ground (arith, text_eq_iff s t, mode_index-injective m n)

same_buffer-Decides : Decides same_buffer
same_buffer-Decides a b = ==_iff a b

find-insert_modes :
    (modes : List MapMode) (mapping : CompiledMapping) (target : Mappings) (mode : MapMode)
    (lhs : Text)
    → find key_eq (mode, lhs) (insert_modes modes mapping target) ≡ (
        if has_mode mode modes && text_eq mapping.lhs lhs
        then some mapping
        else find key_eq (mode, lhs) target)
unfolding insert_modes key_eq
find-insert_modes [] mapping target mode lhs = refl
find-insert_modes (m ∷ modes) mapping target mode lhs =
    let next = store key_eq (m, mapping.lhs) mapping target in
    ground (
      arith,
      find-insert_modes modes mapping next mode lhs,
      find-store key_eq key_eq-Decides (m, mapping.lhs) (mode, lhs) mapping target,
    )

put_back-table :
    (b c : ℕ) (m : Mappings) (tables : List (ℕ × Mappings))
    → or_empty (find same_buffer c (put_back b m tables))
      ≡ (if b == c then m else or_empty (find same_buffer c tables))
unfolding put_back or_empty
put_back-table b c [] tables = ground (arith, find-erase same_buffer same_buffer-Decides b c tables)
put_back-table b c (e ∷ m) tables =
    ground (arith, find-store same_buffer same_buffer-Decides b c (e ∷ m) tables)

register_in-view :
    (at : Option ℕ) (mapping : CompiledMapping) (s : KeymapStore) (target : Option ℕ)
    (mode : MapMode) (lhs : Text)
    → view (register_in at mapping s) target (mode, lhs) ≡ (
        if same_target at target && (has_mode mode mapping.modes && text_eq mapping.lhs lhs)
        then some mapping
        else view s target (mode, lhs))
unfolding view register_in or_empty
register_in-view none mapping s none mode lhs =
    find-insert_modes mapping.modes mapping s.global mode lhs
register_in-view none mapping s (some c) mode lhs = refl
register_in-view (some b) mapping s none mode lhs = refl
register_in-view (some b) mapping s (some c) mode lhs =
    let table = or_empty (find same_buffer b s.buffer_local) in
    let filled = insert_modes mapping.modes mapping table in
    ground (
      arith,
      find-store same_buffer same_buffer-Decides b c filled s.buffer_local,
      find-insert_modes mapping.modes mapping table mode lhs,
    )

find_nil : (key : Key) → find {V = CompiledMapping} key_eq key [] ≡ none
unfolding find
find_nil key = refl

unmap-view :
    (at : Option ℕ) (mode : MapMode) (lhs : Text) (s : KeymapStore) (target : Option ℕ) (key : Key)
    → view (unmap mode lhs at s).1 target key ≡ unmapped at (mode, lhs) (view s) target key
unfolding view unmapped unmap unmap_in or_empty
unmap-view none mode lhs s none key = find-erase key_eq key_eq-Decides (mode, lhs) key s.global
unmap-view none mode lhs s (some c) key = refl
unmap-view (some b) mode lhs s none key = elim (Option-cases (find same_buffer b s.buffer_local)) [
  | inl missing ↦ rw missing refl
  | inr (m, found) ↦ rw found refl
]
unmap-view (some b) mode lhs s (some c) key =
    elim (Option-cases (find same_buffer b s.buffer_local)) [
      | inl missing ↦ ground (arith, missing, find_nil key)
      | inr (m, found) ↦ ground (
        arith,
        found,
        put_back-table b c (erase key_eq (mode, lhs) m) s.buffer_local,
        find-erase key_eq key_eq-Decides (mode, lhs) key m,
      )
    ]

unmap-removed :
    (at : Option ℕ) (mode : MapMode) (lhs : Text) (s : KeymapStore)
    → (unmap mode lhs at s).0 ≡ view s at (mode, lhs)
unfolding view unmap unmap_in or_empty
unmap-removed none mode lhs s = refl
unmap-removed (some b) mode lhs s = elim (Option-cases (find same_buffer b s.buffer_local)) [
  | inl missing ↦ rw missing (sym (find_nil (mode, lhs)))
  | inr (m, found) ↦ rw found refl
]

resolve-view :
    (mode : MapMode) (lhs : Text) (buffer : Option ℕ) (s : KeymapStore)
    → resolve_mapping mode lhs buffer s
      ≡ or_else (view s buffer (mode, lhs)) (view s none (mode, lhs))
unfolding resolve_mapping local_mapping view or_else or_empty
resolve-view mode lhs none s = ground arith
resolve-view mode lhs (some b) s = refl

-- A KeymapStore implements functions from a target, which is a buffer or the global table, and a key to
-- a mapping: `register` sets the mapping's own target at its left-hand side in each of its modes
-- and nothing else; `unmap` clears one key of one target and returns what was there; and `resolve`
-- gives the mapping of the buffer's own table, or else the global one.
pub keymaps-refine :
    (s : KeymapStore)
    → ((mapping : CompiledMapping)
        → view (register_mapping mapping s) ≡ registered mapping (view s))
      × ((at : Option ℕ) (mode : MapMode) (lhs : Text)
          → (view (unmap mode lhs at s).1 ≡ unmapped at (mode, lhs) (view s))
            × ((unmap mode lhs at s).0 ≡ view s at (mode, lhs)))
      × ((buffer : Option ℕ) (mode : MapMode) (lhs : Text)
          → resolve_mapping mode lhs buffer s
            ≡ or_else (view s buffer (mode, lhs)) (view s none (mode, lhs)))
unfolding register_mapping registered
keymaps-refine s = (
  λ mapping. fun_ext (λ target.
      fun_ext (λ (mode, lhs). register_in-view mapping.buffer mapping s target mode lhs)),
  λ at mode lhs. (
    fun_ext (λ target. fun_ext (λ key. unmap-view at mode lhs s target key)),
    unmap-removed at mode lhs s,
  ),
  λ buffer mode lhs. resolve-view mode lhs buffer s,
)
