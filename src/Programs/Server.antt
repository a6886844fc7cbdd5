-- ===== src/Programs/Server.antt =====
-- cmd/server/main.go.
use goprofile.Prelude.{ℕ, ◌+◌, ◌-◌, Bytes, text}
use goprofile.Result.{Result, ok, err}
use goprofile.Config.{Config}
use goprofile.App.Lifecycle.{Deps}
use goprofile.Handlers.Avatars.{new_avatar_handler}
use goprofile.Handlers.Web.{new_web_handler}
use goprofile.Services.Deps.{AvatarService}
use goprofile.Middleware.{Handler}
use goprofile.Router.{Serving, new_router}
use goprofile.Programs.{Process, Program, Surroundings, exit, returned, main}

-- srv.ListenAndServe and srv.Shutdown
abbrev pub listen : Process → Process
listen p = record p { servers = p.servers + 1 }

abbrev pub shutdown_server : Process → Process
shutdown_server p = record p { servers = p.servers - 1 }

-- `web` is what NewWebHandler returns. The context is done by a signal, or by `stop` where the
-- server cannot listen; then it is shut down.
abbrev pub serving : Result (Unit {0}) → Config → Deps → Program
serving (err e) cfg deps p = exit 1 p
serving (ok _) cfg deps p = (returned, shutdown_server (listen p))

unfoldable pub server_main : Surroundings → Result (Unit {0}) → Program
server_main around web = main around (serving web) (text "gophprofile-server")

-- The handler of the server: the limits of both handlers come from the configuration.
module _ {C S Image : Type 0} (libraries : Serving C) (format_time : ℕ → Bytes) where
  unfoldable pub server_handler : AvatarService S Image → Config → Handler C S
  server_handler svc cfg =
      new_router libraries cfg
        (record {
          avatars = new_avatar_handler svc cfg.max_upload_bytes;
          web = new_web_handler svc cfg.max_upload_bytes;
        })
        format_time
