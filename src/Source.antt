-- ===== src/Source.antt =====
-- src/source.rs: source files, spans and diagnostics. A path is its text. An operation that aborts
-- the program, by an index or a slice that is out of range, is `none` of `Fallible`.
pub mod Files
mod Tests
use vim_script.Prelude.{
  ℕ, ◌-◌, Bool, true, false, Option, none, some, List, [], ◌∷◌, ◌++◌, Text, ◌==◌, if◌then◌else◌,
  ltb, text,
}

pub record SourceId : Type 0 where
  pub index : ℕ

pub record Span : Type 0 where
  pub source : SourceId
  pub start : ℕ
  pub end : ℕ

abbrev pub Fallible : Type 0 → Type 0
Fallible A = Option A

unfoldable pub is_empty_span : Span → Bool
is_empty_span span = span.start == span.end

-- `Span::len`: the subtraction saturates at 0.
unfoldable pub span_length : Span → ℕ
span_length span = span.end - span.start

unfoldable pub merge : Span → Span → Fallible Span
merge a b =
    if a.source.index == b.source.index
    then some (record {
      source = a.source;
      start = if ltb b.start a.start then b.start else a.start;
      end = if ltb a.end b.end then b.end else a.end;
    })
    else none

pub data Severity : Type 0 where
  error warning note help : Severity

unfoldable pub severity_text : Severity → Text
severity_text Severity.error = text "error"
severity_text Severity.warning = text "warning"
severity_text Severity.note = text "note"
severity_text Severity.help = text "help"

pub record Label : Type 0 where
  pub span : Span
  pub message : Text

pub record Suggestion : Type 0 where
  pub span : Span
  pub replacement : Text
  pub message : Text

pub record Diagnostic : Type 0 where
  pub code : Option Text
  pub severity : Severity
  pub message : Text
  pub primary : Span
  pub labels : List Label
  pub notes : List Text
  pub suggestions : List Suggestion

unfoldable pub diagnostic_error : Text → Text → Span → Diagnostic
diagnostic_error code message primary = record {
  code = some code;
  severity = Severity.error;
  message = message;
  primary = primary;
  labels = [];
  notes = [];
  suggestions = [];
}

unfoldable pub diagnostic_warning : Text → Text → Span → Diagnostic
diagnostic_warning code message primary = record {
  code = some code;
  severity = Severity.warning;
  message = message;
  primary = primary;
  labels = [];
  notes = [];
  suggestions = [];
}

unfoldable pub with_label : Span → Text → Diagnostic → Diagnostic
with_label span message d = record d {
  labels = d.labels ++ record { span = span; message = message } ∷ [];
}

unfoldable pub with_note : Text → Diagnostic → Diagnostic
with_note message d = record d { notes = d.notes ++ message ∷ [] }

unfoldable pub with_suggestion : Span → Text → Text → Diagnostic → Diagnostic
with_suggestion span replacement message d = record d {
  suggestions =
      d.suggestions ++ record { span = span; replacement = replacement; message = message } ∷ [];
}
