-- ===== src/Tests/Programs.antt =====
-- Both programs, started in an environment where every call works.
use goprofile.Prelude.{Bytes, text, [], if◌then◌else◌, ◌==◌, text_eq, text_beq, ◌≡◌, refl, false}
use goprofile.Text.{trim_space, split}
use goprofile.Result.{ok}
use goprofile.Config.{load, from_env, env, split_csv}
use goprofile.Observability.Setup.{setup, exporting}
use goprofile.App.Lifecycle.{new, with_pool}
use goprofile.Programs.{Process, Surroundings, main, with_telemetry, with_deps, returned}
use goprofile.Programs.Server.{server_main}
use goprofile.Programs.Consumer.{worker_main}
use goprofile.Programs.Laws.{Released, server_main-Released, worker_main-Released}

abbrev environment : Bytes → Bytes
environment key =
    if key == text "DATABASE_URL"
    then text "postgres://db"
    else if key == text "OTEL_EXPORTER_OTLP_ENDPOINT"
    then text "otel:4317"
    else []

abbrev working_calls : Surroundings
working_calls = record {
  getenv = environment;
  sdk = record {
    new_trace_exporter = ok tt;
    new_log_exporter = ok tt;
    new_resource = ok tt;
    stop_tracer = ok tt;
    stop_logger = ok tt;
  };
  calls = record {
    parse_config = ok tt;
    new_pool = ok tt;
    register_pool_collector = ok tt;
    ping = ok tt;
    migrate_up = ok tt;
    new_s3 = ok tt;
    ensure_bucket = ok tt;
    ensure_topics = ok tt;
  };
}

abbrev fresh : Process
fresh = record {
  telemetry = record { trace_exporters = 0; log_exporters = 0; log_provider = false };
  resources = record { pools = 0; producers = 0 };
  notified = false;
  servers = 0;
  readers = 0;
}

server_returns : (server_main working_calls (ok tt) fresh).0 ≡ returned
unfolding server_main main load from_env env split_csv split with_telemetry with_deps setup
    exporting new with_pool trim_space text_beq
server_returns = refl

worker_returns : (worker_main working_calls (ok tt) fresh).0 ≡ returned
unfolding worker_main main load from_env env split_csv split with_telemetry with_deps setup
    exporting new with_pool trim_space text_beq
worker_returns = refl

server_main-Released_example : Released fresh (server_main working_calls (ok tt) fresh).1
server_main-Released_example = server_main-Released working_calls (ok tt) fresh server_returns

worker_main-Released_example : Released fresh (worker_main working_calls (ok tt) fresh).1
worker_main-Released_example = worker_main-Released working_calls (ok tt) fresh worker_returns
