-- ===== src/Observability.antt =====
-- internal/observability, as far as it computes: the level of the log, the endpoint of the exporters,
-- and the labels of a request. Spans, log records and Prometheus are not modelled.
pub mod Carrier
pub mod Setup
pub mod Spans
pub mod Log
pub mod Metrics
pub mod Http
use goprofile.Prelude.{
  ℕ, Bool, true, false, ◌||◌, Bytes, text, drop, length, if◌then◌else◌, ◌==◌, text_eq, nat_eq,
  Option, none, some, List, [], ◌∷◌,
}
use goprofile.Domain.Errors.{Err}
use goprofile.Result.{Result, ok, err}
use goprofile.Text.{trim_space, trim_right, to_lower, has_prefix}

pub data Level : Type 0 where
  level_debug level_info level_warn level_error : Level

unfoldable pub parse_level : Bytes → Level
parse_level raw =
    let s = to_lower (trim_space raw) in
    if s == text "debug"
    then level_debug
    else if s == text "warn" || s == text "warning"
    then level_warn
    else if s == text "error"
    then level_error
    else level_info

-- The host, and whether the connection is without TLS.
unfoldable pub parse_otlp_endpoint : Bytes → Bytes × Bool
parse_otlp_endpoint raw =
    let s = trim_space raw in
    if has_prefix s (text "https://")
    then (trim_right (drop 8 s) b'/', false)
    else if has_prefix s (text "http://")
    then (trim_right (drop 7 s) b'/', true)
    else (trim_right s b'/', true)

-- The labels of a request behind its handler: the pattern of chi if it has one, or else the path,
-- and the status that was written, where 0 stands for none.
abbrev pub route_label : Bytes → Option Bytes → Bytes
route_label path none = path
route_label path (some []) = path
route_label path (some (a ∷ pattern)) = a ∷ pattern

abbrev pub status_label : ℕ → ℕ
status_label status = if status == 0 then 200 else status

-- What prometheus.Register says of a collector.
pub data Registered : Type 0 where
  registered already_registered : Registered
  refused : Err → Registered

-- A collector that was registered before is fine.
unfoldable pub register_all : List Registered → Result (Unit {0})
register_all [] = ok tt
register_all (registered ∷ more) = register_all more
register_all (already_registered ∷ more) = register_all more
register_all (refused e ∷ more) = err e

-- `answers` are those for the three gauges; a pool that is nil has none.
unfoldable pub register_pool_collector : Bool → List Registered → Result (Unit {0})
unfolding register_all
register_pool_collector has_pool answers = if has_pool then register_all answers else ok tt
