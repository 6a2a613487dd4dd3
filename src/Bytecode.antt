-- ===== src/Bytecode.antt =====
-- src/bytecode.rs: instructions, function prototypes and modules. A `ConstantId` and a
-- `FunctionId` are their index; a jump's operand is an absolute index of the function's code.
use vim_script.Prelude.{ℕ, Bool, Option, none, some, List, [], ◌∷◌, ℤ, Text, ◌==◌, if◌then◌else◌}
use vim_script.Source.{SourceId, Span}
use vim_script.Ast.{UnaryOperator, BinaryOperator, ExCommand}

abbrev pub ConstantId : Type 0
ConstantId = ℕ

abbrev pub FunctionId : Type 0
FunctionId = ℕ

pub data OptionScopeOperand : Type 0 where
  unqualified local global : OptionScopeOperand

-- A float is its 64-bit pattern.
pub data Constant : Type 0 where
  null : Constant
  bool : Bool → Constant
  integer : ℤ → Constant
  float : ℕ → Constant
  string : Text → Constant
  blob : List ℕ → Constant
  function : FunctionId → Constant
  command : ExCommand → Constant

pub data Instruction : Type 0 where
  load_constant : ConstantId → Instruction
  load_null : Instruction
  load_local store_local load_capture store_capture : ℕ → Instruction
  load_global store_global : ConstantId → Instruction
  load_scoped store_scoped : (scope : ℕ) (name : ConstantId) → Instruction
  load_option store_option : (scope : OptionScopeOperand) (name : ConstantId) → Instruction
  pop duplicate : Instruction
  unary : UnaryOperator → Instruction
  binary : BinaryOperator → Instruction
  build_list build_dictionary : ℕ → Instruction
  get_index set_index : Instruction
  get_member : ConstantId → Instruction
  call : ℕ → Instruction
  call_named : (name : ConstantId) (argc : ℕ) → Instruction
  return : Instruction
  make_closure : (target : FunctionId) (captures : ℕ) → Instruction
  jump jump_if_false jump_if_true loop : ℕ → Instruction
  iter_start : Instruction
  iter_next : (end : ℕ) → Instruction
  iter_end : Instruction
  try_begin : (handler : ℕ) (stack_depth : ℕ) → Instruction
  try_end throw await : Instruction
  execute_command emit_event : ConstantId → Instruction

pub record ExceptionHandler : Type 0 where
  pub start : ℕ
  pub end : ℕ
  pub handler : ℕ
  pub finally : Option ℕ

pub record FunctionPrototype : Type 0 where
  pub id : FunctionId
  pub name : Option Text
  pub arity : ℕ
  pub optional_parameters : ℕ
  pub variadic : Bool
  pub local_count : ℕ
  pub capture_count : ℕ
  pub asynchronous : Bool
  pub code : List Instruction
  pub constants : List Constant
  pub spans : List (ℕ × Span)
  pub handlers : List ExceptionHandler

pub record BytecodeModule : Type 0 where
  pub source : SourceId
  pub entrypoint : FunctionId
  pub functions : List FunctionPrototype

unfoldable pub find_function : List FunctionPrototype → FunctionId → Option FunctionPrototype
find_function [] id = none
find_function (f ∷ fs) id = if f.id == id then some f else find_function fs id

-- `BytecodeModule::function`
abbrev pub function_of : BytecodeModule → FunctionId → Option FunctionPrototype
function_of m id = find_function m.functions id
