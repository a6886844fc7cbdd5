-- ===== src/Observability/Http.antt =====
-- `HTTP` of internal/observability/http.go: what is counted of each request. The duration and the
-- log record are left out.
use goprofile.Prelude.{ℕ, Bool, Bytes, text, List, ◌∷◌, Option, leb, if◌then◌else◌, ◌==◌, text_eq}
use goprofile.Http.{Response}
use goprofile.Middleware.{Request, Handler}
use goprofile.Observability.{route_label, status_label}

-- The labels of the counter, and whether the span is marked as failed.
pub record Served : Type 0 where
  pub method : Bytes
  pub route : Bytes
  pub status : ℕ
  pub failed : Bool

-- The path that chi matched, if there is one.
abbrev served : Option Bytes → Request → Response → Served
served pattern r answer = record {
  method = r.method;
  route = route_label r.path pattern;
  status = status_label answer.status;
  failed = leb 500 (status_label answer.status);
}

-- `pattern` is that of chi's context behind the handler.
module _ {C S : Type 0} (pattern : Request → Option Bytes) where
  unfoldable pub http :
      Handler C S → Request → List Served × (C × S) → Response × (List Served × (C × S))
  http next r (seen, s) =
      let (answer, s') = next r s in
      if r.path == text "/metrics"
      then (answer, (seen, s'))
      else (answer, (served (pattern r) r answer ∷ seen, s'))
