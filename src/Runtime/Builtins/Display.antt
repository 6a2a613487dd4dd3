-- ===== src/Runtime/Builtins/Display.antt =====
-- src/runtime/builtins.rs: the errors of builtin functions, and values as texts.
use vim_script.Prelude.{
  ℕ, ◌+◌, ◌/◌, ◌%◌, true, false, List, [], ◌∷◌, ◌++◌, Text, text, ltb, ◌==◌, if◌then◌else◌, show_ℤ,
  show_ℕ,
}
use vim_script.Runtime.Value.{Value, Values, nil, cons, Entries, end, entry, FloatOps, type_name}
use vim_script.Runtime.Error.{RuntimeErrorKind, RuntimeError, Result, ok, err, coded}

-- `error` and `type_error`
unfoldable pub typed_error : Text → Text → RuntimeError
typed_error code message = coded code RuntimeErrorKind.type_error message

unfoldable pub unexpected : Text → Text → Value → RuntimeError
unexpected function expected actual =
    typed_error (text "E745")
      (function ++ (text " expected " ++ (expected ++ (text ", got " ++ type_name actual))))

-- `[T]::join` on texts
unfoldable pub join_texts : Text → List Text → Text
join_texts separator [] = []
join_texts separator (s ∷ []) = s
join_texts separator (s ∷ t ∷ ts) = s ++ (separator ++ join_texts separator (t ∷ ts))

-- `replace('\'', "''")`
unfoldable pub double_quotes : Text → Text
double_quotes [] = []
double_quotes (c ∷ s) = if c == b'\'' then b'\'' ∷ b'\'' ∷ double_quotes s else c ∷ double_quotes s

-- `{:X}` of a number below 16, and `{:02X}` of a byte
unfoldable pub hex_digit : ℕ → ℕ
hex_digit n = if ltb n 10 then 48 + n else 55 + n

unfoldable pub hex_bytes : List ℕ → Text
unfolding hex_digit
hex_bytes [] = []
hex_bytes (b ∷ bs) = hex_digit (b / 16) ∷ hex_digit (b % 16) ∷ hex_bytes bs

unfoldable pub quoted : Text → Text
quoted s = b'\'' ∷ (double_quotes s ++ b'\'' ∷ [])

module _ (fl : FloatOps) where
  unfoldable mutual
    pub vim_string : Value → Text
    vim_string Value.null = text "v:null"
    vim_string (Value.bool true) = text "v:true"
    vim_string (Value.bool false) = text "v:false"
    vim_string (Value.integer n) = show_ℤ n
    vim_string (Value.float x) = fl.show x
    vim_string (Value.string s) = quoted s
    vim_string (Value.blob bs) = text "0z" ++ hex_bytes bs
    vim_string (Value.list vs) = text "[" ++ (join_texts (text ", ") (vim_strings vs) ++ text "]")
    vim_string (Value.dictionary es) =
        text "{" ++ (join_texts (text ", ") (entry_strings es) ++ text "}")
    vim_string (Value.closure a f cs) = text "function('<lambda>')"
    vim_string (Value.builtin n) = text "function('" ++ (n ++ text "')")
    vim_string (Value.host_function n) = text "function('" ++ (n ++ text "')")
    vim_string (Value.future o) = text "future(" ++ (show_ℕ o ++ text ")")
    vim_string (Value.host_object o) = text "object(" ++ (show_ℕ o ++ text ")")

    vim_strings : Values → List Text
    vim_strings nil = []
    vim_strings (cons v vs) = vim_string v ∷ vim_strings vs

    entry_strings : Entries → List Text
    entry_strings end = []
    entry_strings (entry k v es) = (quoted k ++ (text ": " ++ vim_string v)) ∷ entry_strings es

  unfoldable pub vim_display : Value → Text
  vim_display Value.null = []
  vim_display (Value.bool b) = if b then text "1" else text "0"
  vim_display (Value.integer n) = show_ℤ n
  vim_display (Value.float x) = fl.show x
  vim_display (Value.string s) = s
  vim_display other = vim_string other

unfoldable pub key_string : Value → Result Text
key_string (Value.string s) = ok s
key_string (Value.integer n) = ok (show_ℤ n)
key_string other = err (unexpected (text "get") (text "String or Number key") other)
