-- ===== src/Router.antt =====
-- internal/api/router.go. How chi matches a pattern is a parameter, and so are the server of the
-- embedded files and the metrics. RequestID, Recoverer and Timeout are left out, which answer by
-- themselves only where a handler panics or overruns, and so is what is counted of each request,
-- which Observability/Http has.
pub mod Reads
pub mod Laws
use goprofile.Prelude.{
  ℕ, Bytes, text, List, [], ◌∷◌, ◌++◌, Option, none, some, Bool, drop, ◌||◌, ◌==◌, text_eq,
  if◌then◌else◌,
}
use goprofile.Http.{Response, empty}
use goprofile.Config.{Config}
use goprofile.Handlers.Health.{Ping, serve_health}
use goprofile.Handlers.Avatars.{
  AvatarHandler, upload_handler, get_by_id_handler, metadata_handler, delete_by_id_handler,
  get_by_user_handler, list_by_user_handler, delete_by_user_handler,
}
use goprofile.Handlers.Web.{
  WebHandler, upload_form_handler, upload_page_handler, gallery_page_handler, static_handler,
}
use goprofile.Middleware.{
  Request, Handler, Packages, user_id_from, security_headers, cors, rate_limit, upload_rate_limit,
  user_id,
}

-- The handlers of the table of routes.
pub data Endpoint : Type 0 where
  metrics health home : Endpoint
  upload get_by_id metadata delete_by_id : Endpoint
  get_by_user list_by_user delete_by_user : Endpoint
  upload_page upload_form gallery_page static : Endpoint

-- Method and pattern; an empty method stands for any.
unfoldable pub routes : List (Bytes × Bytes × Endpoint)
routes =
    ([], text "/metrics", metrics)
    ∷ (text "GET", text "/health", health)
    ∷ (text "POST", text "/api/v1/avatars/", upload)
    ∷ (text "GET", text "/api/v1/avatars/{avatar_id}", get_by_id)
    ∷ (text "GET", text "/api/v1/avatars/{avatar_id}/metadata", metadata)
    ∷ (text "DELETE", text "/api/v1/avatars/{avatar_id}", delete_by_id)
    ∷ (text "GET", text "/api/v1/users/{user_id}/avatar", get_by_user)
    ∷ (text "GET", text "/api/v1/users/{user_id}/avatars", list_by_user)
    ∷ (text "DELETE", text "/api/v1/users/{user_id}/avatar", delete_by_user)
    ∷ (text "GET", text "/web/upload", upload_page)
    ∷ (text "POST", text "/web/upload", upload_form)
    ∷ (text "GET", text "/web/gallery/{user_id}", gallery_page)
    ∷ ([], text "/web/static/*", static)
    ∷ (text "GET", text "/", home)
    ∷ []

-- What is not under src/ of a server: chi, with the value of the pattern's parameter where it
-- matches and the answer where nothing does, the file server, and the metrics.
pub record Serving (C : Type 0) : Type 0 where
  pub packages : Packages C
  pub matches : Bytes → Request → Option Bytes
  pub not_found : Request → Response
  pub file_server : Bytes → Response
  pub serve_metrics : Request → Response
  pub pings : Request → Ping × Ping × Ping

pub record Handlers (S Image : Type 0) : Type 0 where
  pub avatars : AvatarHandler S Image
  pub web : WebHandler S Image

module _ {C : Type 0} (serving : Serving C) where
  open serving use {matches}

  abbrev allows : Bytes → Request → Bool
  allows method r = method == [] || method == r.method

  abbrev found : Endpoint → Option Bytes → Option (Endpoint × Bytes) → Option (Endpoint × Bytes)
  found e none rest = rest
  found e (some param) rest = some (e, param)

  -- The first route that allows the method and matches the path.
  unfoldable pub find_route : List (Bytes × Bytes × Endpoint) → Request → Option (Endpoint × Bytes)
  find_route [] r = none
  find_route ((method, pattern, e) ∷ more) r =
      let rest = find_route more r in
      if allows method r then found e (matches pattern r) rest else rest

module _ {C S Image : Type 0} (serving : Serving C) (cfg : Config) (handlers : Handlers S Image)
    (format_time : ℕ → Bytes) where
  open serving use {packages, not_found, file_server, serve_metrics, pings}

  -- A handler that only acts on what is behind the counters.
  abbrev pub acting : (Request → S → Response × S) → Handler C S
  acting f r (c, s) = let (answer, s') = f r s in (answer, (c, s'))

  abbrev pub answering : (Request → Response) → Handler C S
  answering f r s = (f r, s)

  -- "/web/static/…" without the prefix "/web/"
  abbrev static_path : Bytes → Bytes
  static_path path = drop 5 path

  abbrev redirect_home : Response
  redirect_home = record {
    status = 302;
    headers = (text "Location", text "/web/upload") ∷ [];
    body = empty;
  }

  -- Inside r.Group.
  abbrev limited : Handler C S → Handler C S
  limited = rate_limit packages cfg.rate_limit_rps

  -- The handler of the table, with the middleware of its route; `param` is what the pattern takes
  -- from the path.
  unfoldable pub serve : Endpoint → Bytes → Handler C S
  serve metrics param = answering serve_metrics
  serve health param = answering (λ r. let (db, s3, kafka) = pings r in serve_health db s3 kafka)
  serve home param = answering (λ r. redirect_home)
  serve upload param = limited (
      upload_rate_limit packages (
        user_id
          (acting (λ r. upload_handler handlers.avatars format_time (user_id_from r) r.form))))
  serve get_by_id param =
      limited (acting (λ r. get_by_id_handler handlers.avatars format_time param r.image))
  serve metadata param = limited (acting (λ r. metadata_handler handlers.avatars format_time param))
  serve delete_by_id param = limited (
      user_id
        (acting (λ r. delete_by_id_handler handlers.avatars format_time (user_id_from r) param)))
  serve get_by_user param =
      limited (acting (λ r. get_by_user_handler handlers.avatars format_time param r.image))
  serve list_by_user param =
      limited (acting (λ r. list_by_user_handler handlers.avatars format_time param))
  serve delete_by_user param = limited (
      user_id
        (acting (λ r. delete_by_user_handler handlers.avatars format_time (user_id_from r) param)))
  serve upload_page param = limited (answering (λ r. upload_page_handler file_server))
  serve upload_form param = limited (
      upload_rate_limit packages
        (acting (λ r. upload_form_handler handlers.web r.header_user_id r.form)))
  serve gallery_page param = limited (answering (λ r. gallery_page_handler file_server))
  serve static param = limited (answering (λ r. static_handler file_server (static_path r.path)))

  abbrev pub dispatch : Option (Endpoint × Bytes) → Handler C S
  dispatch none = answering not_found
  dispatch (some (e, param)) = serve e param

  unfoldable pub new_router : Handler C S
  unfolding serve find_route
  new_router =
      security_headers
        (cors packages cfg.cors_origins (λ r s. dispatch (find_route serving routes r) r s))
