-- ===== src/Lib.antt =====
-- The Vimscript interpreter: its virtual machine, builtin functions, task scheduler and editor tables.
--
-- A script is lexed, parsed, resolved and compiled (lexer.rs, parser.rs, resolver.rs, compiler.rs of
-- src/) to a bytecode module. A machine (src/runtime/vm.rs) runs a module in quanta of instructions,
-- and stops where it wants something from outside: a call of the host, an option, an Ex command or the
-- result of a future. The scheduler (src/runtime/scheduler.rs) owns the machines as tasks, runs the
-- ready ones in turn, polls the futures of the host and hands their results to the tasks that wait.
--
-- Which file models what:
--   * Ast, Bytecode, Host: the data of src/ast.rs, src/bytecode.rs and src/host.rs that a machine
--     holds or hands out.
--   * Source: src/source.rs, with spans and diagnostics; Source/Files has `SourceFile` and `SourceMap`,
--     and Source/Files/Render the rendering of a diagnostic. Bytes and Locations hold the proofs.
--   * ExParser: src/ex_parser.rs. Cursor has the primitive methods, Modifiers and Ranges the
--     methods of these names, Parse `parse`. Scanning, Printing, Opening, RangeText,
--     RoundTrip and Ends hold the proofs.
--   * Host/Dispatch: `Capability`, `Arity`, `CommandRegistry::resolve`, the data and the dispatch
--     methods of `HostRuntime` in src/host.rs. UserCommands has `UserCommand`, MapNames and Mappings the
--     mapping commands, Autocommands `:augroup` and `:autocmd`, Methods the other methods, Engine
--     what the scheduler calls, Words the words of a text. Access, MapLetters, CommandNames, MapText, MapCommands, Expansion, Registered, Kept and Reachable hold the proofs.
--   * Runtime/Value, Runtime/Error: `Value` of src/runtime/value.rs, `RuntimeError` of src/runtime/vm.rs.
--   * Runtime/Arithmetic: `binary`, `unary`, `get_index` and the functions they call. Its children
--     hold proofs on bounds and indexing.
--   * Runtime/Vm: the machine. State has its fields and `push`, `pop`, `error`; Lookups the constants,
--     globals and `exists()`; Calls has `call`, `Return`, `Throw` and `dispatch_catchable_error`; Step has
--     every instruction of `step`; Run has `with_globals`, `run_quantum`, `run` and the `resume_*` methods.
--     Control, Suspension and Safety hold the proofs.
--   * Runtime/Builtins: src/runtime/builtins.rs. Display has `vim_string`, `vim_display` and the errors; Numbers
--     abs, min, max and range; Collections and Strings the other functions; Registry has
--     `BuiltinRegistry`. Returns, Defaults, Platform, Sorting, Splitting, Getting, Extrema and Ranges hold
--     the proofs.
--   * Integration: src/integration.rs. Globs has `vim_glob_matches`, Events the `EventBus`, Keymaps the
--     `KeymapStore`, Options the `OptionStore`, Modules the cache of modules. Their children hold the proofs.
--   * Runtime/Scheduler: State has the tables, `spawn_child`, `register_boxed`; Tick has `tick` and all that it
--     calls; Drive has `cancel`, `run_until_complete` and `run_until_stalled`. Sane, Others,
--     Families, Kept, Cancel, Spawn, Reachable, Idle and Stall hold the proofs.
--   * Prelude: Boolean tests, lists, integers, texts and tables.
--
-- How code corresponds to definitions. A method that takes `&mut self` and returns a `RuntimeResult` is a
-- function from the state to the result and the new state, which is there after an error too. A
-- panic (`expect`, an overflow that Rust checks always) is the result `panic`. Unsigned numbers are ℕ,
-- an `i64` is an integer ℤ with its bounds written out, a float is its bit pattern, and a
-- `Vec` that serves as a stack has its top first. A `HashMap` is an association list.
--
-- What is taken as an argument. `Platform` has the operations on floats, the formatting of the standard
-- library, the process environment and the registry of builtin functions; theorems that need it
-- suppose that a builtin returns (`BuiltinsReturn`). Runtime/Builtins/Platform puts the registry of
-- src/runtime/builtins.rs there. `CaseMapping` has the case tables of Unicode. `Engine` has the futures of the embedding program
-- and the methods that the scheduler calls, which Host/Engine fills with those of src/host.rs; the `Host` of the
-- embedding program is `HostApi`. The name of the file in a path and the debug format of a text are functions that
-- `add_path` and `render` take. Wakes of futures are the list `wakes` of the scheduler,
-- and the wakes that arrive while `run_until_complete` blocks are its argument.
--
-- Bounds and fuel. `run` is given rounds and a quantum in place of `usize::MAX`; one round with a quantum
-- above the instruction budget is enough. `cancel` has as fuel the depth of its nested calls; the number of task
-- ids above the task's is enough. The loops of the scheduler take fuel too, and their theorem
-- speaks about what they return, since a script may run for ever when it has no budget. The loop of
-- `vim_glob_matches` has a fuel that depends on the two lengths, `glob_fuel`; the loop of `range` recurs on the
-- million numbers that it may push. The loops over modifiers, offsets, attributes of `:command`, options of a mapping
-- and flags of `:autocmd` have as fuel the length of the text that is left, of which each round takes a character at
-- least; `prepare_command` has the 32 rounds of the source.
--
-- Not modelled: lexing, parsing, resolving and compiling, src/plugin.rs, src/mock_editor.rs and the command line.
-- The counters of mappings and handlers of a host runtime have no bound here, where the source has a `u64`.
pub mod Prelude
pub mod Source
pub mod Ast
pub mod ExParser
pub mod Bytecode
pub mod Host
pub mod Integration
pub mod Runtime
