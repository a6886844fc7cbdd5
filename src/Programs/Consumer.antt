-- ===== src/Programs/Consumer.antt =====
-- cmd/worker/main.go.
use goprofile.Prelude.{◌+◌, ◌-◌, text}
use goprofile.Result.{Result, ok, err}
use goprofile.Config.{Config}
use goprofile.App.Lifecycle.{Deps}
use goprofile.Programs.{Process, Program, Surroundings, exit, returned, deferring, main}
use goprofile.Programs.Server.{listen, shutdown_server}

abbrev pub open_reader : Process → Process
open_reader p = record p { readers = p.readers + 1 }

abbrev pub close_reader : Process → Process
close_reader p = record p { readers = p.readers - 1 }

-- Behind Worker.Run, whose result is given.
abbrev pub worked : Result (Unit {0}) → Program
worked (err e) p = exit 1 p
worked (ok _) p = (returned, p)

-- The server of the metrics, the two consumers, and the worker.
abbrev pub working : Result (Unit {0}) → Config → Deps → Program
working run cfg deps p =
    deferring shutdown_server
      (λ p.
        deferring close_reader (deferring close_reader (worked run)) (open_reader (open_reader p)))
      (listen p)

unfoldable pub worker_main : Surroundings → Result (Unit {0}) → Program
worker_main around run = main around (working run) (text "gophprofile-worker")
