-- ===== src/Runtime/Value.antt =====
-- src/runtime/value.rs: runtime values. An `Arc<Closure>` is compared by its address, so a
-- closure carries the address that it was allocated at. A float is its 64-bit pattern, and the
-- operations of the processor on such patterns are the fields of `FloatOps`.
use vim_script.Prelude.{
  ◌≡◌, refl, ap, ℕ, Bool, true, false, not, ◌&&◌, ◌||◌, Option, none, some, List, [], ◌∷◌, ℤ, Text,
  ◌==◌, eq_ℤ, pos, text_eq, text,
}
use vim_script.Bytecode.{BytecodeModule, FunctionId}

pub record FunctionRef : Type 0 where
  pub module_of : BytecodeModule
  pub id : FunctionId

mutual
  pub data Value : Type 0 where
    null : Value
    bool : Bool → Value
    integer : ℤ → Value
    float : ℕ → Value
    string : Text → Value
    blob : List ℕ → Value
    list : Values → Value
    dictionary : Entries → Value
    closure : (address : ℕ) → FunctionRef → Values → Value
    builtin host_function : Text → Value
    future host_object : ℕ → Value

  -- `Vec<Value>`
  pub data Values : Type 0 where
    nil : Values
    cons : Value → Values → Values

  -- `BTreeMap<String, Value>`, in the order of its keys
  pub data Entries : Type 0 where
    end : Entries
    entry : Text → Value → Entries → Entries

unfoldable pub of_list : List Value → Values
of_list [] = nil
of_list (v ∷ vs) = cons v (of_list vs)

unfoldable pub to_list : Values → List Value
to_list nil = []
to_list (cons v vs) = v ∷ to_list vs

pub to_list-of_list : (vs : List Value) → to_list (of_list vs) ≡ vs
unfolding to_list of_list
to_list-of_list [] = refl
to_list-of_list (v ∷ vs) = ap (◌∷◌ v) (to_list-of_list vs)

-- The outcome of `partial_cmp`.
pub data Comparison : Type 0 where
  below same above unordered : Comparison

-- What the source uses of `f64` and of the formatting of the standard library.
pub record FloatOps : Type 0 where
  pub of_i64 : ℤ → ℕ
  pub negated : ℕ → ℕ
  pub sum : ℕ → ℕ → ℕ
  pub difference : ℕ → ℕ → ℕ
  pub product : ℕ → ℕ → ℕ
  pub quotient : ℕ → ℕ → ℕ
  pub partial_cmp : ℕ → ℕ → Comparison
  pub parse : Text → Option ℕ
  pub show : ℕ → Text

abbrev pub is_same : Comparison → Bool
is_same same = true
is_same _ = false

module _ (fl : FloatOps) where
  -- `left == right` on `f64`
  abbrev pub float_eq : ℕ → ℕ → Bool
  float_eq a b = is_same (fl.partial_cmp a b)

  -- `value != 0.0`
  abbrev pub float_ne_zero : ℕ → Bool
  float_ne_zero a = not (float_eq a (fl.of_i64 (pos 0)))

  unfoldable pub parses_to_nonzero : Option ℕ → Bool
  parses_to_nonzero none = false
  parses_to_nonzero (some x) = float_ne_zero x

  unfoldable pub is_truthy : Value → Bool
  unfolding parses_to_nonzero
  is_truthy null = false
  is_truthy (bool b) = b
  is_truthy (integer n) = not (eq_ℤ n (pos 0))
  is_truthy (float x) = float_ne_zero x
  is_truthy (string s) = parses_to_nonzero (fl.parse s)
  is_truthy (blob []) = false
  is_truthy (blob (b ∷ bs)) = true
  is_truthy (list nil) = false
  is_truthy (list (cons v vs)) = true
  is_truthy (dictionary end) = false
  is_truthy (dictionary (entry k v es)) = true
  is_truthy _ = true

  -- `impl PartialEq for Value`
  unfoldable mutual
    pub value_eq : Value → Value → Bool
    value_eq null null = true
    value_eq (bool a) (bool b) = (a && b) || (not a && not b)
    value_eq (integer a) (integer b) = eq_ℤ a b
    value_eq (float a) (float b) = float_eq a b
    value_eq (integer a) (float b) = float_eq (fl.of_i64 a) b
    value_eq (float a) (integer b) = float_eq a (fl.of_i64 b)
    value_eq (string a) (string b) = text_eq a b
    value_eq (blob a) (blob b) = text_eq a b
    value_eq (list a) (list b) = values_eq a b
    value_eq (dictionary a) (dictionary b) = entries_eq a b
    value_eq (closure a _ _) (closure b _ _) = a == b
    value_eq (builtin a) (builtin b) = text_eq a b
    value_eq (host_function a) (host_function b) = text_eq a b
    value_eq (future a) (future b) = a == b
    value_eq (host_object a) (host_object b) = a == b
    value_eq _ _ = false

    pub values_eq : Values → Values → Bool
    values_eq nil nil = true
    values_eq (cons v vs) (cons w ws) = value_eq v w && values_eq vs ws
    values_eq _ _ = false

    pub entries_eq : Entries → Entries → Bool
    entries_eq end end = true
    entries_eq (entry k v es) (entry j w fs) = text_eq k j && value_eq v w && entries_eq es fs
    entries_eq _ _ = false

unfoldable pub type_name : Value → Text
type_name null = text "null"
type_name (bool b) = text "bool"
type_name (integer n) = text "number"
type_name (float x) = text "float"
type_name (string s) = text "string"
type_name (blob b) = text "blob"
type_name (list vs) = text "list"
type_name (dictionary es) = text "dictionary"
type_name (closure a f cs) = text "function"
type_name (builtin n) = text "function"
type_name (host_function n) = text "function"
type_name (future o) = text "future"
type_name (host_object o) = text "object"
