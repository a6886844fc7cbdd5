-- ===== src/Observability/Setup.antt =====
-- `Setup` of internal/observability/otel.go and its shutdown: which exporters are open. Whether each
-- constructor and shutdown works is a parameter.
use goprofile.Result.Laws.{Result-cases}
use goprofile.Prelude.{
  ℕ, ◌+◌, ◌-◌, ◌≡◌, refl, inl, inr, Bool-cases, Bool, true, false, Bytes, [], if◌then◌else◌, ◌==◌,
  text_eq, arith, Option, none, some,
}
use goprofile.Text.{trim_space}
use goprofile.Domain.Errors.{Err, joined}
use goprofile.Result.{Result, ok, err, Exec, error, lift, modify, return, ◌or_undo◌, ◌>>◌}

pub record Telemetry : Type 0 where
  pub trace_exporters : ℕ
  pub log_exporters : ℕ
  -- logProvider is not nil
  pub log_provider : Bool

-- What the constructors and the shutdowns of the providers return.
pub record Sdk : Type 0 where
  pub new_trace_exporter : Result (Unit {0})
  pub new_log_exporter : Result (Unit {0})
  pub new_resource : Result (Unit {0})
  pub stop_tracer : Result (Unit {0})
  pub stop_logger : Result (Unit {0})

abbrev pub open_trace : Telemetry → Telemetry
open_trace t = record t { trace_exporters = t.trace_exporters + 1 }

abbrev pub close_trace : Telemetry → Telemetry
close_trace t = record t { trace_exporters = t.trace_exporters - 1 }

abbrev pub open_log : Telemetry → Telemetry
open_log t = record t { log_exporters = t.log_exporters + 1 }

abbrev pub close_log : Telemetry → Telemetry
close_log t = record t { log_exporters = t.log_exporters - 1 }

abbrev pub set_log_provider : Bool → Telemetry → Telemetry
set_log_provider provider t = record t { log_provider = provider }

-- errors.Join
abbrev pub join_errors : Option Err → Option Err → Result (Unit {0})
join_errors none none = ok tt
join_errors (some e) none = err e
join_errors none (some e) = err e
join_errors (some d) (some e) = err (joined d e)

-- The same exporters are open.
abbrev pub SameExporters : Telemetry → Telemetry → Type 0
SameExporters t t' = (t'.trace_exporters ≡ t.trace_exporters) × (t'.log_exporters ≡ t.log_exporters)

-- Where Setup fails, or behind the shutdown that it returns.
abbrev pub ended : Result (Exec Telemetry (Unit {0})) × Telemetry → Telemetry
ended (ok stop, t) = (stop t).1
ended (err e, t) = t

module _ (sdk : Sdk) where
  open sdk use {new_trace_exporter, new_log_exporter, new_resource, stop_tracer, stop_logger}

  -- The function that Setup returns. A provider closes its exporter.
  unfoldable pub shutdown : Exec Telemetry (Unit {0})
  shutdown t = (
    join_errors (error stop_tracer) (error stop_logger),
    set_log_provider false (close_log (close_trace t)),
  )

  unfoldable pub exporting : Exec Telemetry (Exec Telemetry (Unit {0}))
  unfolding shutdown
  exporting = do
    lift new_trace_exporter
    modify open_trace
    ◌or_undo◌ (lift new_log_exporter) (modify close_trace)
    modify open_log
    ◌or_undo◌ (lift new_resource) (modify (λ t. close_log (close_trace t)))
    modify (set_log_provider true)
    return shutdown

  unfoldable pub setup : Bytes → Exec Telemetry (Exec Telemetry (Unit {0}))
  unfolding exporting
  setup endpoint =
      if trim_space endpoint == []
      then (do modify (set_log_provider false); return (return tt))
      else exporting

  exporting-SameExporters : (t : Telemetry) → SameExporters t (ended (exporting t))
  unfolding exporting
  exporting-SameExporters t = elim (Result-cases new_trace_exporter) [
    | inr (e, failed) ↦ rw failed (refl, refl)
    | inl (_, p) ↦ elim (Result-cases new_log_exporter) [
      | inr (e, failed) ↦ rw (p, failed) (omega arith, refl)
      | inl (_, q) ↦ elim (Result-cases new_resource) [
        | inr (e, failed) ↦ rw (p, q, failed) (omega arith, omega arith)
        | inl (_, r) ↦ rw (p, q, r) (omega arith, omega arith)
      ]
    ]
  ]

  -- Whether Setup fails at some call, or succeeds and its shutdown is called later, no exporter is
  -- left open that was not open before.
  pub setup-SameExporters :
      (endpoint : Bytes) (t : Telemetry) → SameExporters t (ended (setup endpoint t))
  unfolding setup
  setup-SameExporters endpoint t = elim (Bool-cases (trim_space endpoint == [])) [
    | inl blank ↦ rw blank (refl, refl)
    | inr set ↦ rw set (exporting-SameExporters t)
  ]
