-- ===== src/Programs.antt =====
-- The programs of cmd/: what a process holds, how it ends, and the start that both share. What the
-- calls return is a parameter; what is logged is left out.
pub mod Server
pub mod Consumer
pub mod Laws
use goprofile.Prelude.{ℕ, ◌||◌, Bool, true, false, Bytes, [], text, if◌then◌else◌, ◌==◌, text_eq}
use goprofile.Domain.Errors.{Err}
use goprofile.Result.{Result, ok, err, Exec}
use goprofile.Config.{Config, load}
use goprofile.Observability.Setup.{Telemetry, Sdk, setup}
use goprofile.App.Lifecycle.{Resources, Calls, Deps, new, close}

pub record Process : Type 0 where
  pub telemetry : Telemetry
  pub resources : Resources
  -- signal.NotifyContext
  pub notified : Bool
  -- servers that listen, and readers of Kafka
  pub servers : ℕ
  pub readers : ℕ

-- main returns, and its deferred calls are made, or os.Exit ends the process at once.
pub data Exit : Type 0 where
  returned : Exit
  exited : ℕ → Exit

abbrev pub Program : Type 0
Program = Process → Exit × Process

abbrev pub ended_by : Exit → (Process → Process) → Process → Exit × Process
ended_by returned cleanup p = (returned, cleanup p)
ended_by (exited n) cleanup p = (exited n, p)

-- `defer cleanup()`, and then the rest of main.
abbrev pub deferring : (Process → Process) → Program → Program
deferring cleanup rest p = let (e, p') = rest p in ended_by e cleanup p'

abbrev pub exit : ℕ → Program
exit n p = (exited n, p)

abbrev pub notify : Bool → Process → Process
notify on p = record p { notified = on }

-- otelStop, whose error is logged.
abbrev pub stop_telemetry : Exec Telemetry (Unit {0}) → Process → Process
stop_telemetry stop p = record p { telemetry = (stop p.telemetry).1 }

abbrev pub close_deps : Deps → Process → Process
close_deps deps p = record p { resources = close deps p.resources }

-- What the environment and the libraries answer to a process.
pub record Surroundings : Type 0 where
  pub getenv : Bytes → Bytes
  pub sdk : Sdk
  pub calls : Calls

-- A service name that is not set, or is the default one, becomes the program's.
unfoldable pub named : Bytes → Config → Config
named name cfg =
    if cfg.service_name == [] || cfg.service_name == text "gophprofile"
    then record cfg { service_name = name }
    else cfg

module _ (around : Surroundings) (body : Config → Deps → Program) where
  abbrev pub after_new : Config → Result Deps × Resources → Program
  after_new cfg (err e, r) p = exit 1 (record p { resources = r })
  after_new cfg (ok deps, r) p =
      deferring (close_deps deps) (body cfg deps) (record p { resources = r })

  unfoldable pub with_deps : Config → Program
  with_deps cfg p = after_new cfg (new around.calls cfg p.resources) p

  abbrev pub after_setup : Config → Result (Exec Telemetry (Unit {0})) × Telemetry → Program
  after_setup cfg (err e, t) p = exit 1 (record p { telemetry = t })
  after_setup cfg (ok stop, t) p =
      deferring (stop_telemetry stop) (with_deps cfg) (record p { telemetry = t })

  unfoldable pub with_telemetry : Config → Program
  unfolding with_deps
  with_telemetry cfg p = after_setup cfg (setup around.sdk cfg.otlp_endpoint p.telemetry) p

  abbrev pub after_load : Bytes → Result Config → Program
  after_load name (err e) p = exit 1 p
  after_load name (ok cfg) p =
      deferring (notify false) (with_telemetry (named name cfg)) (notify true p)

  unfoldable pub main : Bytes → Program
  unfolding with_telemetry named
  main name p = after_load name (load around.getenv) p
