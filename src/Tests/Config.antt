-- ===== src/Tests/Config.antt =====
-- Environments that the configuration is read from.
use goprofile.Prelude.{
  Bytes, text, List, [], ◌∷◌, ◌≡◌, ◌≢◌, ◌⊎◌, if◌then◌else◌, ◌==◌, text_eq, All, arith,
}
use goprofile.Text.{trim_space}
use goprofile.Domain.Errors.{message}
use goprofile.Result.{ok, err}
use goprofile.Config.{Config, load, split_csv, env}
use goprofile.Config.Laws.{IsLoaded, load-cases}
use goprofile.Config.Lists.{IsEntry, join, split_csv-join}

-- A database, two brokers with spaces around them, and a rate beyond 64 bits.
abbrev environment : Bytes → Bytes
environment key =
    if key == text "DATABASE_URL"
    then text "postgres://db"
    else if key == text "KAFKA_BROKERS"
    then text " a:1 , b:2 "
    else if key == text "RATE_LIMIT_RPS"
    then text "9223372036854775808"
    else []

load-cases_example :
    ((trim_space (environment (text "DATABASE_URL")) ≡ [])
      × (load environment ≡ err (message (text "DATABASE_URL is required"))))
    ⊎ ((trim_space (environment (text "DATABASE_URL")) ≢ [])
        × (split_csv (env environment (text "KAFKA_BROKERS") (text "localhost:9094")) ≡ [])
        × (load environment ≡ err (message (text "KAFKA_BROKERS is required"))))
    ⊎ ((trim_space (environment (text "DATABASE_URL")) ≢ [])
        × (split_csv (env environment (text "KAFKA_BROKERS") (text "localhost:9094")) ≢ [])
        × ((cfg : Config) × (load environment ≡ ok cfg)
            × (cfg.database_url ≡ trim_space (environment (text "DATABASE_URL")))
            × (cfg.kafka_brokers
                ≡ split_csv (env environment (text "KAFKA_BROKERS") (text "localhost:9094")))
            × IsLoaded cfg))
load-cases_example = load-cases environment

abbrev brokers : List Bytes
brokers = text "a:1" ∷ text "b:2" ∷ []

brokers-IsEntry : All IsEntry brokers
brokers-IsEntry = (
  record { nonempty = ground arith; visible = ground arith; no_comma = ground arith },
  (record { nonempty = ground arith; visible = ground arith; no_comma = ground arith }, tt),
)

split_csv-join_example : split_csv (join brokers) ≡ brokers
split_csv-join_example = split_csv-join brokers brokers-IsEntry
