-- ===== src/Integration/Keymaps.antt =====
-- src/integration.rs: KeymapStore.
pub mod View
use vim_script.Prelude.{
  ℕ, Bool, true, false, ◌&&◌, Option, none, some, List, [], ◌∷◌, Text, text_eq, ◌==◌, find, store,
  erase, if◌then◌else◌, is_some,
}
use vim_script.Ast.{MapMode, MappingOptions}
use vim_script.Bytecode.{BytecodeModule}

pub data MappingExpansion : Type 0 where
  keys : Text → MappingExpansion
  bytecode : BytecodeModule → MappingExpansion
  no_op : MappingExpansion

pub record CompiledMapping : Type 0 where
  pub id : ℕ
  pub modes : List MapMode
  pub lhs : Text
  pub expansion : MappingExpansion
  pub options : MappingOptions
  pub buffer : Option ℕ

-- The place of a mode in its declaration, by which `MapMode` is compared.
unfoldable pub mode_index : MapMode → ℕ
mode_index MapMode.normal = 0
mode_index MapMode.visual = 1
mode_index MapMode.select = 2
mode_index MapMode.operator_pending = 3
mode_index MapMode.insert = 4
mode_index MapMode.command_line = 5
mode_index MapMode.lang_arg = 6
mode_index MapMode.terminal = 7

abbrev pub Key : Type 0
Key = MapMode × Text

unfoldable pub key_eq : Key → Key → Bool
unfolding mode_index
key_eq (m, s) (n, t) = (mode_index m == mode_index n) && text_eq s t

abbrev pub same_buffer : ℕ → ℕ → Bool
same_buffer a b = a == b

abbrev pub Mappings : Type 0
Mappings = List (Key × CompiledMapping)

pub record KeymapStore : Type 0 where
  pub global : Mappings
  pub buffer_local : List (ℕ × Mappings)

unfoldable pub or_empty : Option Mappings → Mappings
or_empty none = []
or_empty (some m) = m

-- The loop over the modes of a mapping.
unfoldable pub insert_modes : List MapMode → CompiledMapping → Mappings → Mappings
insert_modes [] mapping target = target
insert_modes (mode ∷ modes) mapping target =
    insert_modes modes mapping (store key_eq (mode, mapping.lhs) mapping target)

unfoldable pub register_in : Option ℕ → CompiledMapping → KeymapStore → KeymapStore
unfolding insert_modes or_empty
register_in none mapping s = record s { global = insert_modes mapping.modes mapping s.global }
register_in (some buffer) mapping s =
    let target = or_empty (find same_buffer buffer s.buffer_local) in
    record s {
      buffer_local =
          store same_buffer buffer (insert_modes mapping.modes mapping target) s.buffer_local;
    }

unfoldable pub register_mapping : CompiledMapping → KeymapStore → KeymapStore
unfolding register_in
register_mapping mapping s = register_in mapping.buffer mapping s

-- A table of a buffer that has become empty is dropped.
unfoldable pub put_back : ℕ → Mappings → List (ℕ × Mappings) → List (ℕ × Mappings)
put_back buffer [] tables = erase same_buffer buffer tables
put_back buffer (e ∷ m) tables = store same_buffer buffer (e ∷ m) tables

unfoldable pub unmap_in :
    ℕ → Key → Option Mappings → KeymapStore → Option CompiledMapping × KeymapStore
unfolding put_back
unmap_in buffer key none s = (none, s)
unmap_in buffer key (some mappings) s = (
  find key_eq key mappings,
  record s { buffer_local = put_back buffer (erase key_eq key mappings) s.buffer_local },
)

unfoldable pub unmap :
    MapMode → Text → Option ℕ → KeymapStore → Option CompiledMapping × KeymapStore
unfolding unmap_in
unmap mode lhs none s =
    (find key_eq (mode, lhs) s.global, record s { global = erase key_eq (mode, lhs) s.global })
unmap mode lhs (some buffer) s =
    unmap_in buffer (mode, lhs) (find same_buffer buffer s.buffer_local) s

-- The mapping of a key in a buffer's own table.
unfoldable pub local_mapping : Key → Option ℕ → KeymapStore → Option CompiledMapping
unfolding or_empty
local_mapping key none s = none
local_mapping key (some buffer) s =
    find key_eq key (or_empty (find same_buffer buffer s.buffer_local))

unfoldable pub or_else : Option CompiledMapping → Option CompiledMapping → Option CompiledMapping
or_else none o = o
or_else (some m) o = some m

unfoldable pub resolve_mapping : MapMode → Text → Option ℕ → KeymapStore → Option CompiledMapping
unfolding local_mapping or_else
resolve_mapping mode lhs buffer s =
    or_else (local_mapping (mode, lhs) buffer s) (find key_eq (mode, lhs) s.global)
