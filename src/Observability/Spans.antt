-- ===== src/Observability/Spans.antt =====
-- The spans of internal/observability: `Start` and `RecordError` of otel.go, and the tracer of
-- queries of pgx.go. A span is what was set on it; whether it is sampled is a parameter.
use goprofile.Prelude.{
  ◌≤◌, ◌≡◌, refl, Bool, Bool-cases, true, false, inl, inr, Bytes, text, List, [], ◌∷◌, ◌++◌, Option,
  none, some, length, take, length-take, ltb, arith, if◌then◌else◌,
}
use goprofile.Domain.Errors.{Err}

pub record Span : Type 0 where
  pub name : Bytes
  pub attributes : List (Bytes × Bytes)
  pub errors : List Err
  pub failed : Bool
  pub recording : Bool
  pub ended : Bool

abbrev pub tracer_name : Bytes
tracer_name = text "gophprofile"

-- Tracer().Start
abbrev pub new_span : Bool → Bytes → Span
new_span sampled name = record {
  name = name;
  attributes = [];
  errors = [];
  failed = false;
  recording = sampled;
  ended = false;
}

unfoldable pub start : Bool → Bytes → List (Bytes × Bytes) → Span
start sampled name attrs = let span = new_span sampled name in record span { attributes = attrs }

abbrev mark_error : Err → Span → Span
mark_error e span = record span { errors = span.errors ++ e ∷ []; failed = true }

unfoldable pub record_error : Option Err → Span → Span
record_error none span = span
record_error (some e) span = if span.recording then mark_error e span else span

abbrev pub end_span : Span → Span
end_span span = record span { recording = false; ended = true }

-- `TraceQueryStart`: the statement is cut off at 512 bytes.
abbrev pub clipped : Bytes → Bytes
clipped sql = if ltb 512 (length sql) then take 512 sql else sql

unfoldable pub trace_query_start : Bool → Bytes → Span
unfolding start
trace_query_start sampled sql = start sampled (text "db.query") (
    (text "db.system", text "postgresql")
    ∷ (text "db.operation", text "query")
    ∷ (text "db.statement", clipped sql)
    ∷ [])

-- `TraceQueryEnd`, with the span of the context, if it has one.
unfoldable pub trace_query_end : Option Err → Option Span → Option Span
unfolding record_error
trace_query_end e none = none
trace_query_end e (some span) = some (end_span (record_error e span))

-- The statement of a query's span has at most 512 bytes, and is the query where it is that short.
clipped_bounds :
    (sql : Bytes) → (length (clipped sql) ≤ 512) × (length sql ≤ 512 → clipped sql ≡ sql)
clipped_bounds sql = elim (Bool-cases (ltb 512 (length sql))) [
  | inl long ↦ rw long (omega (arith, length-take 512 sql), λ short. absurd (ground arith))
  | inr short ↦ rw short (ground arith, λ _. refl)
]
