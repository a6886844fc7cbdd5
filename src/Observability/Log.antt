-- ===== src/Observability/Log.antt =====
-- internal/observability/log.go, over a handler of slog that is a parameter.
use goprofile.Prelude.{Bool, Bytes, text, List, [], ◌∷◌, ◌++◌, Option, none, some, if◌then◌else◌}
use goprofile.Result.{Exec}
use goprofile.Observability.{Level}

pub record LogRecord : Type 0 where
  pub message : Bytes
  pub attrs : List (Bytes × Bytes)

pub record SpanContext : Type 0 where
  pub trace_id : Bytes
  pub span_id : Bytes
  pub is_valid : Bool

-- slog.Handler
pub record SlogHandler (S H : Type 0) : Type 0 where
  pub handle : H → LogRecord → Exec S (Unit {0})
  pub with_attrs : H → List (Bytes × Bytes) → H
  pub with_group : H → Bytes → H

-- `traceHandler`, which wraps a handler.
pub record TraceHandler (H : Type 0) : Type 0 where
  pub inner : H

abbrev traced : SpanContext → LogRecord → LogRecord
traced sc rec =
    if sc.is_valid
    then record rec {
      attrs = rec.attrs ++ (text "trace_id", sc.trace_id) ∷ (text "span_id", sc.span_id) ∷ [];
    }
    else rec

module _ {S H : Type 0} (slog : SlogHandler S H) where
  -- The span context is that of the context.
  unfoldable pub handle : SpanContext → TraceHandler H → LogRecord → Exec S (Unit {0})
  handle sc h rec = slog.handle h.inner (traced sc rec)

  unfoldable pub with_attrs : TraceHandler H → List (Bytes × Bytes) → TraceHandler H
  with_attrs h attrs = record { inner = slog.with_attrs h.inner attrs }

  unfoldable pub with_group : TraceHandler H → Bytes → TraceHandler H
  with_group h name = record { inner = slog.with_group h.inner name }

-- A logger writes to its handlers, with the service's name.
pub record SlogLogger (H : Type 0) : Type 0 where
  pub handlers : List (TraceHandler H)
  pub attrs : List (Bytes × Bytes)

module _ {H : Type 0} (json_handler : Level → H) (otel_handler : Bytes → H) where
  -- `NewLogger`, and whether a provider of logs is set.
  unfoldable pub new_logger : Bool → Bytes → Level → SlogLogger H
  new_logger has_provider service level = record {
    handlers =
        record { inner = json_handler level }
        ∷ (if has_provider then record { inner = otel_handler service } ∷ [] else []);
    attrs = (text "service", service) ∷ [];
  }

-- The logger of the context, which may be nil, or else the default.
module _ {L : Type 0} where
  abbrev pub context_with_logger : L → Option L
  context_with_logger log = some log

  abbrev pub logger : L → Option L → L
  logger default none = default
  logger default (some log) = log
