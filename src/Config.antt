-- ===== src/Config.antt =====
-- internal/config/config.go. The environment of the process is a parameter: the value of each
-- variable, which is empty where it is not set.
pub mod Laws
pub mod Lists
use goprofile.Prelude.{
  ℕ, ◌*◌, ◌^◌, Bool, true, false, Bytes, text, List, [], ◌∷◌, Option, none, some, any, length,
  if◌then◌else◌, ◌==◌, nat_eq, text_eq,
}
use goprofile.Prelude.Int.{ℤ, pos}
use goprofile.Text.{trim_space, trim_right, to_lower, split}
use goprofile.Text.Number.{parse_int}
use goprofile.Domain.Errors.{Err, message}
use goprofile.Result.{Result, ok, err}

abbrev pub default_http_addr : Bytes
default_http_addr = text ":8080"

abbrev pub default_public_base_url : Bytes
default_public_base_url = text "http://localhost:8080"

abbrev pub default_max_upload_size : ℤ
default_max_upload_size = pos (10 * 2 ^ 20)

abbrev pub default_s3_bucket : Bytes
default_s3_bucket = text "avatars"

abbrev pub default_kafka_group : Bytes
default_kafka_group = text "gophprofile-worker"

pub record Config : Type 0 where
  pub http_addr : Bytes
  pub public_base_url : Bytes
  pub max_upload_bytes : ℤ
  pub rate_limit_rps : ℤ
  pub cors_origins : List Bytes
  pub database_url : Bytes
  pub s3_endpoint : Bytes
  pub s3_access_key : Bytes
  pub s3_secret_key : Bytes
  pub s3_bucket : Bytes
  pub s3_use_ssl : Bool
  pub s3_region : Bytes
  pub kafka_brokers : List Bytes
  pub kafka_group : Bytes
  pub topic_upload : Bytes
  pub topic_delete : Bytes
  pub topic_process : Bytes
  pub service_name : Bytes
  pub otlp_endpoint : Bytes
  pub log_level : Bytes
  pub metrics_addr : Bytes

-- The parts that are not blank, without the white space at their ends.
unfoldable pub trimmed_parts : List Bytes → List Bytes
trimmed_parts [] = []
trimmed_parts (p ∷ parts) =
    let p' = trim_space p in let rest = trimmed_parts parts in if p' == [] then rest else p' ∷ rest

unfoldable pub split_csv : Bytes → List Bytes
unfolding trimmed_parts
split_csv v = trimmed_parts (split v b',')

-- `n`, or the fallback where there is an error.
abbrev pub parsed_or : ℤ → Option ℤ → ℤ
parsed_or fallback none = fallback
parsed_or fallback (some n) = n

-- In nanoseconds.
abbrev pub shutdown_timeout : ℕ
shutdown_timeout = 10 * 10 ^ 9

module _ (getenv : Bytes → Bytes) where
  unfoldable pub env : Bytes → Bytes → Bytes
  env key fallback = let v = trim_space (getenv key) in if v == [] then fallback else v

  unfoldable pub env_int : Bytes → ℤ → ℤ
  env_int key fallback =
      let v = trim_space (getenv key) in
      if v == [] then fallback else parsed_or fallback (parse_int v)

  unfoldable pub env_int64 : Bytes → ℤ → ℤ
  env_int64 key fallback =
      let v = trim_space (getenv key) in
      if v == [] then fallback else parsed_or fallback (parse_int v)

  unfoldable pub env_bool : Bytes → Bool → Bool
  env_bool key fallback =
      let v = trim_space (to_lower (getenv key)) in
      if v == []
      then fallback
      else if any (λ s. s == v) (text "1" ∷ text "true" ∷ text "yes" ∷ text "on" ∷ [])
      then true
      else if any (λ s. s == v) (text "0" ∷ text "false" ∷ text "no" ∷ text "off" ∷ [])
      then false
      else fallback

  unfoldable pub from_env : Config
  from_env = record {
    http_addr = env (text "HTTP_ADDR") default_http_addr;
    public_base_url = trim_right (env (text "PUBLIC_BASE_URL") default_public_base_url) b'/';
    max_upload_bytes = env_int64 (text "MAX_UPLOAD_BYTES") default_max_upload_size;
    rate_limit_rps = env_int (text "RATE_LIMIT_RPS") (pos 20);
    cors_origins = split_csv (env (text "CORS_ORIGINS") (text "*"));
    database_url = env (text "DATABASE_URL") [];
    s3_endpoint = env (text "S3_ENDPOINT") (text "localhost:9000");
    s3_access_key = env (text "S3_ACCESS_KEY") (text "minioadmin");
    s3_secret_key = env (text "S3_SECRET_KEY") (text "minioadmin");
    s3_bucket = env (text "S3_BUCKET") default_s3_bucket;
    s3_use_ssl = env_bool (text "S3_USE_SSL") false;
    s3_region = env (text "S3_REGION") (text "us-east-1");
    kafka_brokers = split_csv (env (text "KAFKA_BROKERS") (text "localhost:9094"));
    kafka_group = env (text "KAFKA_GROUP") default_kafka_group;
    topic_upload = env (text "KAFKA_TOPIC_UPLOAD") (text "avatar.uploaded");
    topic_delete = env (text "KAFKA_TOPIC_DELETE") (text "avatar.deleted");
    topic_process = env (text "KAFKA_TOPIC_PROCESS") (text "avatar.process");
    service_name = env (text "OTEL_SERVICE_NAME") (text "gophprofile");
    otlp_endpoint = env (text "OTEL_EXPORTER_OTLP_ENDPOINT") [];
    log_level = env (text "LOG_LEVEL") (text "info");
    metrics_addr = env (text "METRICS_ADDR") (text ":9090");
  }

  unfoldable pub load : Result Config
  load =
      let cfg = from_env in
      if cfg.database_url == []
      then err (message (text "DATABASE_URL is required"))
      else if length cfg.kafka_brokers == 0
      then err (message (text "KAFKA_BROKERS is required"))
      else ok cfg
