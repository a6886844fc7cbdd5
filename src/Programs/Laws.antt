-- ===== src/Programs/Laws.antt =====
-- What a process still holds when its main is over.
use std.Path.{subst}
use goprofile.Prelude.{◌≡◌, refl, sym, ap, ◌∙◌, arith, true, false, Bytes, text}
use goprofile.Prelude.{◌≡◌, refl, sym, ap, ◌∙◌, arith, true, false, Bytes, text}
use goprofile.Result.{Result, ok, err, Exec}
use goprofile.Config.{Config, load}
use goprofile.Observability.Setup.{Telemetry, Sdk, setup, SameExporters, setup-SameExporters}
use goprofile.Observability.Setup
use goprofile.App.Lifecycle.{Resources, Deps, new, close, SameResources, new-SameResources}
use goprofile.App.Lifecycle
use goprofile.Programs.{
  Process, Exit, Program, returned, exited, ended_by, deferring, notify, Surroundings, after_new,
  with_deps, after_setup, with_telemetry, after_load, main, named, close_deps, stop_telemetry,
}
use goprofile.Programs.Server.{serving, server_main, listen, shutdown_server}
use goprofile.Programs.Consumer.{working, worker_main, worked, open_reader, close_reader}

-- A main that returns makes its deferred call.
deferring-returned :
    (cleanup : Process → Process) (rest : Program) (p : Process)
    → (deferring cleanup rest p).0 ≡ returned
    → ((rest p).0 ≡ returned) × ((deferring cleanup rest p).1 ≡ cleanup (rest p).1)
deferring-returned cleanup rest p back = of (rest p) back
  where
    of :
        (o : Exit × Process)
        → (ended_by o.0 cleanup o.1).0 ≡ returned
        → (o.0 ≡ returned) × ((ended_by o.0 cleanup o.1).1 ≡ cleanup o.1)
    of (returned, q) back = (refl, refl)
    of (exited n, q) back = cc

-- A part of a program that leaves the process as it was where it returns.
abbrev Restores : Program → Type 0
Restores c = (p : Process) → (c p).0 ≡ returned → (c p).1 ≡ p

deferring-Restores :
    (start cleanup : Process → Process) (rest : Program)
    → ((p : Process) → cleanup (start p) ≡ p)
    → Restores rest
    → Restores (λ p. deferring cleanup rest (start p))
deferring-Restores start cleanup rest undone restores p back =
    let (h, made) = deferring-returned cleanup rest (start p) back in
    made ∙ ap cleanup (restores (start p) h) ∙ undone p

-- Nothing that was not open before is open: no exporter, pool, producer, server or reader.
abbrev pub Released : Process → Process → Type 0
Released p p' =
    SameExporters p.telemetry p'.telemetry
    × SameResources p.resources p'.resources
    × (p'.servers ≡ p.servers)
    × (p'.readers ≡ p.readers)

module _ (around : Surroundings) (body : Config → Deps → Program)
    (restores : (cfg : Config) (deps : Deps) → Restores (body cfg deps)) where
  -- From New on, the telemetry is as it was.
  abbrev Held : Process → Process → Type 0
  Held p p' = (p'.telemetry ≡ p.telemetry) × Released p p'

  after_new-Held :
      (cfg : Config) (made : Result Deps × Resources) (p : Process)
      → SameResources p.resources (Lifecycle.ended made)
      → (after_new around body cfg made p).0 ≡ returned
      → Held p (after_new around body cfg made p).1
  after_new-Held cfg (err e, r) p same back = cc
  after_new-Held cfg (ok deps, r) p same back =
      let q = record p { resources = r } in
      let (h, made) = deferring-returned (close_deps deps) (body cfg deps) q back in
      let end = made ∙ ap (close_deps deps) (restores cfg deps q h) in
      subst (Held p) (sym end) (refl, ((refl, refl), same, refl, refl))

  with_deps-Held :
      (cfg : Config) (p : Process)
      → (with_deps around body cfg p).0 ≡ returned
      → Held p (with_deps around body cfg p).1
  unfolding with_deps
  with_deps-Held cfg p =
      after_new-Held cfg (new around.calls cfg p.resources) p
        (new-SameResources around.calls cfg p.resources)

  after_setup-Released :
      (cfg : Config) (set : Result (Exec Telemetry (Unit {0})) × Telemetry) (p : Process)
      → SameExporters p.telemetry (Setup.ended set)
      → (after_setup around body cfg set p).0 ≡ returned
      → Released p (after_setup around body cfg set p).1
  after_setup-Released cfg (err e, t) p same back = cc
  after_setup-Released cfg (ok stop, t) p same back =
      let q = record p { telemetry = t } in
      let (h, made) = deferring-returned (stop_telemetry stop) (with_deps around body cfg) q back in
      let (kept, (_, pools, servers, readers)) = with_deps-Held cfg q h in
      subst (Released p) (sym made)
        (subst (λ t. SameExporters p.telemetry (stop t).1) (sym kept) same, pools, servers, readers)

  main-Released :
      (name : Bytes) (p : Process)
      → (main around body name p).0 ≡ returned
      → Released p (main around body name p).1
  unfolding main with_telemetry
  main-Released name p = of (load around.getenv)
    where
      of :
          (loaded : Result Config)
          → (after_load around body name loaded p).0 ≡ returned
          → Released p (after_load around body name loaded p).1
      of (err e) back = cc
      of (ok cfg) back =
          let c = named name cfg in
          let q = record p { notified = true } in
          let (h, made) = deferring-returned (notify false) (with_telemetry around body c) q back in
          subst (Released p) (sym made) (
            after_setup-Released c (setup around.sdk c.otlp_endpoint p.telemetry) q
              (setup-SameExporters around.sdk c.otlp_endpoint p.telemetry) h)

-- Where the main of the server returns, no exporter, pool, producer, server or reader is open that
-- was not open before.
pub server_main-Released :
    (around : Surroundings) (web : Result (Unit {0})) (p : Process)
    → (server_main around web p).0 ≡ returned
    → Released p (server_main around web p).1
unfolding server_main
server_main-Released around web p =
    main-Released around (serving web) (λ cfg deps q. of web cfg deps q) (text "gophprofile-server")
      p
  where
    of : (web : Result (Unit {0})) (cfg : Config) (deps : Deps) → Restores (serving web cfg deps)
    of (err e) cfg deps q back = cc
    of (ok _) cfg deps q back = ap (λ n. record q { servers = n }) (omega arith)

worked-Restores : (run : Result (Unit {0})) → Restores (worked run)
worked-Restores (err e) p back = cc
worked-Restores (ok _) p back = refl

reading-Restores :
    (run : Result (Unit {0}))
    → Restores (λ p.
      deferring close_reader (deferring close_reader (worked run)) (open_reader (open_reader p)))
reading-Restores run p back =
    let q = open_reader (open_reader p) in
    let (h, made) = deferring-returned close_reader (deferring close_reader (worked run)) q back in
    let (g, made') = deferring-returned close_reader (worked run) q h in
    made
    ∙ ap close_reader made'
    ∙ ap (λ q. close_reader (close_reader q)) (worked-Restores run q g)
    ∙ ap (λ n. record p { readers = n }) (omega arith)

-- Where the main of the worker returns, no exporter, pool, producer, server or reader is open that
-- was not open before.
pub worker_main-Released :
    (around : Surroundings) (run : Result (Unit {0})) (p : Process)
    → (worker_main around run p).0 ≡ returned
    → Released p (worker_main around run p).1
unfolding worker_main
worker_main-Released around run =
    main-Released around (working run)
      (λ cfg deps.
        deferring-Restores listen shutdown_server _
          (λ p. ap (λ n. record p { servers = n }) (omega arith)) (reading-Restores run))
      (text "gophprofile-worker")
