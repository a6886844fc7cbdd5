-- ===== src/Tests/Router.antt =====
-- A deletion over HTTP without a user id.
use goprofile.Prelude.{
  ℕ, true, Bytes, text, text_beq, [], none, some, drop, ◌≡◌, ◌≢◌, ◌&&◌, if◌then◌else◌, ◌==◌,
  text_eq, arith,
}
use goprofile.Prelude.Int.{pos}
use goprofile.Text.{trim_space, trim_left, trim_back, has_prefix}
use goprofile.Result.{ok}
use goprofile.Domain.Validate.{validate_user_id}
use goprofile.World.{World}
use goprofile.Http.{Response, empty, malformed}
use goprofile.Config.{Config, from_env}
use goprofile.App.{new_service}
use goprofile.Handlers.Web.{WebHandler}
use goprofile.Middleware.{Request}
use goprofile.Router.{Serving, upload_form, routes, find_route, new_router}
use goprofile.Router.Laws.{handlers, new_router-Keeps}
use goprofile.Tests.{test_setup}
use goprofile.Tests.Service.{stocked}

abbrev bare : Response
bare = record { status = 404; headers = []; body = empty }

-- One pattern is matched, and ten requests are within each limit.
abbrev libraries : Serving ℕ
libraries = record {
  packages = record {
    preflight = λ options r. none;
    cors_headers = λ options r. [];
    within = λ n window key c. (true, c);
  };
  matches = λ pattern r.
      if pattern == text "/api/v1/avatars/{avatar_id}"
        && has_prefix r.path (text "/api/v1/avatars/")
      then some (drop 16 r.path)
      else none;
  not_found = λ r. bare;
  file_server = λ path. bare;
  serve_metrics = λ r. bare;
  pings = λ r. (some (ok tt), some (ok tt), some (ok tt));
}

abbrev anonymous : Request
anonymous = record {
  method = text "DELETE";
  path = text "/api/v1/avatars/3";
  remote_addr = text "10.0.0.1:5000";
  header_user_id = [];
  context_user_id = [];
  image = record { size = []; format = []; if_none_match = [] };
  form = λ body memory. malformed;
}

abbrev cfg : Config
cfg = from_env (λ key. [])

abbrev web : WebHandler World Bytes
web = record { svc = new_service test_setup; max_bytes = pos 100 }

refused_lem : validate_user_id anonymous.header_user_id ≢ none
unfolding validate_user_id trim_space trim_left trim_back text_beq
refused_lem = ground arith

other_lem : (param : Bytes) → find_route libraries routes anonymous ≢ some (upload_form, param)
unfolding find_route routes has_prefix text_beq
other_lem param = ground arith

new_router-Keeps_example :
    (new_router libraries cfg
      (handlers test_setup (pos 100) web libraries cfg (λ n. []))
      (λ n. [])
      anonymous
      (0, stocked)).1.1.db
    ≡ stocked.db
new_router-Keeps_example =
    new_router-Keeps test_setup (pos 100) web libraries cfg (λ n. []) anonymous 0 stocked other_lem
      refused_lem
