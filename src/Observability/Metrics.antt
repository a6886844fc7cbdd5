-- ===== src/Observability/Metrics.antt =====
-- internal/observability/metrics.go: the metrics, which are registered when the program starts. The
-- buckets are in milliseconds, and the help texts are left out.
use goprofile.Prelude.{ℕ, Bytes, text, List, [], ◌∷◌, text_eq}

pub data MetricKind : Type 0 where
  counter gauge : MetricKind
  histogram : List ℕ → MetricKind

pub record Metric : Type 0 where
  pub kind : MetricKind
  pub name : Bytes
  pub labels : List Bytes

abbrev metric : MetricKind → Bytes → List Bytes → Metric
metric kind name labels = record { kind = kind; name = name; labels = labels }

abbrev pub http_requests : Metric
http_requests =
    metric counter (text "http_requests_total") (text "method" ∷ text "path" ∷ text "status" ∷ [])

abbrev pub http_duration : Metric
http_duration =
    metric (histogram (5 ∷ 10 ∷ 25 ∷ 50 ∷ 100 ∷ 250 ∷ 500 ∷ 1000 ∷ 2500 ∷ 5000 ∷ 10000 ∷ []))
      (text "http_request_duration_seconds") (text "method" ∷ text "path" ∷ [])

abbrev pub uploads_metric : Metric
uploads_metric = metric counter (text "avatars_uploads_total") (text "status" ∷ [])

abbrev pub upload_duration_metric : Metric
upload_duration_metric =
    metric (histogram (50 ∷ 100 ∷ 250 ∷ 500 ∷ 1000 ∷ 2500 ∷ 5000 ∷ 10000 ∷ []))
      (text "avatars_upload_duration_seconds") (text "status" ∷ [])

abbrev pub deletes_metric : Metric
deletes_metric = metric counter (text "avatars_deletes_total") (text "status" ∷ [])

abbrev pub processed_metric : Metric
processed_metric =
    metric counter (text "avatars_processed_total") (text "kind" ∷ text "status" ∷ [])

abbrev pub storage_usage : Metric
storage_usage = metric gauge (text "avatars_storage_bytes") []

abbrev pub outbox_metric : Metric
outbox_metric = metric gauge (text "avatars_outbox_unpublished") []

abbrev pub kafka_metric : Metric
kafka_metric =
    metric counter (text "avatars_kafka_messages_total")
      (text "op" ∷ text "topic" ∷ text "status" ∷ [])

abbrev pub registered : List Metric
registered =
    http_requests ∷ http_duration ∷ uploads_metric ∷ upload_duration_metric ∷ deletes_metric
    ∷ processed_metric ∷ storage_usage ∷ outbox_metric ∷ kafka_metric ∷ []
