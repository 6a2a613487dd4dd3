-- ===== src/Source/Files/Render.antt =====
-- src/source.rs: SourceMap::render. `debug` is the `{:?}` of a text.
use vim_script.Prelude.{
  ◌-◌, Option, none, some, List, [], ◌∷◌, ◌++◌, Text, text, ltb, if◌then◌else◌, length, replicate,
  show_ℕ,
}
use vim_script.Source.{Fallible, span_length, severity_text, Suggestion, Diagnostic}
use vim_script.Source.Files.{SourceLocation, SourceFile, SourceMap, location, line, get_file}

abbrev line_feed : Text
line_feed = b'\n' ∷ []

unfoldable pub render_head : Diagnostic → Text
unfolding severity_text
render_head d = elim d.code [
  | some code ↦
      severity_text d.severity ++ (text "[" ++ (code ++ (text "]: " ++ (d.message ++ line_feed))))
  | none ↦ severity_text d.severity ++ (text ": " ++ (d.message ++ line_feed))
]

-- The marked line: its number, its text, and carets below the span.
unfoldable pub render_line : SourceLocation → Diagnostic → Option Text → Text
unfolding span_length
render_line at d none = []
render_line at d (some s) =
    let width = length (show_ℕ at.line) in
    let marker_len = if ltb 0 (span_length d.primary) then span_length d.primary else 1 in
    (replicate width b' ' ++ (text " |" ++ line_feed))
    ++ ((show_ℕ at.line ++ (text " | " ++ (s ++ line_feed)))
        ++ (replicate width b' '
            ++ (text " | "
                ++ (replicate (at.column - 1) b' ' ++ (replicate marker_len b'^' ++ line_feed)))))

unfoldable pub render_place : SourceFile → Option SourceLocation → Diagnostic → Fallible Text
unfolding render_line
render_place file none d = some []
render_place file (some at) d = elim (line file at.line) [
  | none ↦ none
  | some found ↦ some (
      (text " --> "
        ++ (file.name
            ++ (text ":" ++ (show_ℕ at.line ++ (text ":" ++ (show_ℕ at.column ++ line_feed))))))
      ++ render_line at d found)
]

unfoldable pub render_file : Option SourceFile → Diagnostic → Fallible Text
unfolding render_place
render_file none d = some []
render_file (some file) d = elim (location file d.primary.start) [
  | none ↦ none
  | some at ↦ render_place file at d
]

unfoldable pub render_notes : List Text → Text
render_notes [] = []
render_notes (n ∷ ns) = (text " = note: " ++ (n ++ line_feed)) ++ render_notes ns

unfoldable pub render_suggestions : (debug : Text → Text) → List Suggestion → Text
render_suggestions debug [] = []
render_suggestions debug (s ∷ ss) =
    (text " = help: "
      ++ (s.message
          ++ (text " (replace with " ++ (debug s.replacement ++ (text ")" ++ line_feed)))))
    ++ render_suggestions debug ss

unfoldable pub render : (debug : Text → Text) → SourceMap → Diagnostic → Fallible Text
unfolding render_head render_file render_notes render_suggestions
render debug m d = elim (render_file (get_file m d.primary.source) d) [
  | none ↦ none
  | some middle ↦ some (
      render_head d ++ (middle ++ (render_notes d.notes ++ render_suggestions debug d.suggestions)))
]
