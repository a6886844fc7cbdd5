-- ===== src/Handlers/Health.antt =====
-- internal/handlers/health.go. The three pings run in goroutines of their own and are read when all
-- are done; their order in the map is random in Go, and fixed here.
use goprofile.Prelude.{ℕ, Bytes, text, List, [], ◌∷◌, Option, none, some, ◌≡◌, ◌↔◌, arith}
use goprofile.Result.{Result, ok, err}
use goprofile.Domain.Errors.{external}
use goprofile.Http.{Response, health_json}
use goprofile.Handlers.Errors.{write_json}

-- The results of the pings; a component that is nil fails with `errMissing`.
abbrev pub Ping : Type 0
Ping = Option (Result (Unit {0}))

abbrev checked : Ping → Result (Unit {0})
checked none = err (external 6)
checked (some r) = r

pub record Summary : Type 0 where
  pub components : List (Bytes × Bytes)
  pub status : Bytes
  pub code : ℕ

-- One round of the loop over the results.
abbrev note : Bytes → Result (Unit {0}) → Summary → Summary
note name (err _) sum = record sum {
  components = (name, text "fail") ∷ sum.components;
  status = text "fail";
  code = 503;
}
note name (ok _) sum = record sum { components = (name, text "ok") ∷ sum.components }

unfoldable pub summarize : List (Bytes × Result (Unit {0})) → Summary → Summary
summarize [] sum = sum
summarize ((name, r) ∷ results) sum = summarize results (note name r sum)

unfoldable pub serve_health : Ping → Ping → Ping → Response
serve_health db s3 kafka =
    let sum =
      summarize
        ((text "postgres", checked db)
          ∷ (text "s3", checked s3)
          ∷ (text "kafka", checked kafka)
          ∷ [])
        (record { components = []; status = text "ok"; code = 200 }) in
    write_json sum.code (health_json sum.status sum.components)

-- The answer is 200 exactly when all three components are configured and their pings work.
pub serve_health_lem :
    (db s3 kafka : Ping)
    → ((serve_health db s3 kafka).status ≡ 200)
      ↔ ((db ≡ some (ok tt)) × (s3 ≡ some (ok tt)) × (kafka ≡ some (ok tt)))
unfolding serve_health summarize write_json
serve_health_lem db s3 kafka = ground arith
