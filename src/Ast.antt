-- ===== src/Ast.antt =====
-- src/ast.rs: the operators, the Ex commands, and the modes and options of key mappings.
use vim_script.Prelude.{ℕ, Bool, Option, List, ℤ, Text}

pub data UnaryOperator : Type 0 where
  negate positive not_op : UnaryOperator

pub data BinaryOperator : Type 0 where
  add subtract multiply divide remainder concatenate : BinaryOperator
  equal not_equal match_op no_match : BinaryOperator
  less less_equal greater greater_equal : BinaryOperator
  logical_and logical_or coalesce is_op is_not : BinaryOperator

pub data CommandModifier : Type 0 where
  silent : Bool → CommandModifier
  keep_jumps keep_alt keep_marks no_autocmd sandbox : CommandModifier
  verbose : ℕ → CommandModifier
  vertical : CommandModifier
  tab : Option ℕ → CommandModifier

pub data Address : Type 0 where
  current last : Address
  line : ℕ → Address
  mark : ℕ → Address
  pattern_search : Text → Bool → Address
  offset : Address → ℤ → Address
  whole_file : Address

pub data RangeSeparator : Type 0 where
  comma semicolon : RangeSeparator

pub record CommandRange : Type 0 where
  pub start : Address
  pub end : Option Address
  pub separator : Option RangeSeparator

pub record ExCommand : Type 0 where
  pub modifiers : List CommandModifier
  pub range : Option CommandRange
  pub name : Text
  pub bang : Bool
  pub count : Option ℕ
  pub register : Option ℕ
  pub arguments : Text

pub data MapMode : Type 0 where
  normal visual select operator_pending insert command_line lang_arg terminal : MapMode

pub record MappingOptions : Type 0 where
  pub non_recursive : Bool
  pub silent : Bool
  pub nowait : Bool
  pub expr : Bool
  pub buffer_local : Bool
  pub unique : Bool
  pub script : Bool
