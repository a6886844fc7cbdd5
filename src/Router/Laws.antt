-- ===== src/Router/Laws.antt =====
-- What a request without a valid user id may do.
use goprofile.Prelude.{
  ℕ, ◌≡◌, ◌≢◌, inl, inr, refl, ap, Bool-cases, Option-cases, Bytes, List, Option, none, some,
}
use goprofile.Prelude.Int.{ℤ}
use goprofile.Domain.Validate.{validate_user_id}
use goprofile.World.{World}
use goprofile.App.{Setup}
use goprofile.Config.{Config}
use goprofile.Http.{Response}
use goprofile.Handlers.Web.{WebHandler}
use goprofile.Middleware.{
  Request, Handler, limit_by, user_id, security_headers, cors, cors_options, rate_limit,
  upload_rate_limit,
}
use goprofile.Router.{
  Endpoint, metrics, health, home, upload, get_by_id, metadata, delete_by_id, get_by_user,
  list_by_user, delete_by_user, upload_page, upload_form, gallery_page, static, Serving, Handlers,
  routes, serve, find_route, new_router, dispatch,
}
use goprofile.Router.Reads.{
  avatars, get_by_id_handler-SameDb, get_by_user_handler-SameDb, metadata_handler-SameDb,
  list_by_user_handler-SameDb,
}

-- The handler leaves the tables as they are, for one request.
module _ {C : Type 0} where
  pub record Keeps (h : Handler C World) (r : Request) : Type 0 where
    pub at : (c : C) (w : World) → (h r (c, w)).1.1.db ≡ w.db

  limit_by-Keeps :
      (serving : Serving C) (n : ℤ) (window : ℕ) (key : Request → Bytes) (refusal : Response)
      (next : Handler C World) (r : Request)
      → Keeps next r
      → Keeps (limit_by serving.packages n window key refusal next) r
  limit_by-Keeps serving n window key refusal next r h = record {
    at = λ c w. elim (Bool-cases (serving.packages.within n window (key r) c).0) [
      | inl inside ↦ rw inside (h.at (serving.packages.within n window (key r) c).1 w)
      | inr outside ↦ rw outside
    ];
  }

  -- A user id that is not valid stops the request.
  user_id-Keeps :
      (next : Handler C World) (r : Request)
      → validate_user_id r.header_user_id ≢ none
      → Keeps (user_id next) r
  unfolding user_id
  user_id-Keeps next r bad = record {
    at = λ c w. elim (Option-cases (validate_user_id r.header_user_id)) [
      | inl good ↦ absurd (bad good)
      | inr (e, refused) ↦ rw refused
    ];
  }

  limited-Keeps :
      (serving : Serving C) (rps : ℤ) (next : Handler C World) (r : Request)
      → Keeps next r
      → Keeps (rate_limit serving.packages rps next) r
  unfolding rate_limit
  limited-Keeps serving rps next r h = limit_by-Keeps serving _ _ _ _ next r h

  upload_limited-Keeps :
      (serving : Serving C) (next : Handler C World) (r : Request)
      → Keeps next r
      → Keeps (upload_rate_limit serving.packages next) r
  unfolding upload_rate_limit
  upload_limited-Keeps serving next r h = limit_by-Keeps serving _ _ _ _ next r h

  -- The answer to a preflight request does not come from a handler.
  cors-Keeps :
      (serving : Serving C) (origins : List Bytes) (next : Handler C World) (r : Request)
      → Keeps next r
      → Keeps (cors serving.packages origins next) r
  unfolding cors
  cors-Keeps serving origins next r h = record {
    at = λ c w. elim (Option-cases (serving.packages.preflight (cors_options origins) r)) [
      | inl passed ↦ rw passed (h.at c w)
      | inr (answer, stopped) ↦ rw stopped
    ];
  }

  security_headers-Keeps :
      (next : Handler C World) (r : Request) → Keeps next r → Keeps (security_headers next) r
  unfolding security_headers
  security_headers-Keeps next r h = record { at = λ c w. h.at c w }

module _ {C Image : Type 0} (setup : Setup Image) (max_bytes : ℤ) (web : WebHandler World Image)
    (serving : Serving C) (cfg : Config) (format_time : ℕ → Bytes) where
  abbrev pub handlers : Handlers World Image
  handlers = record { avatars = avatars setup max_bytes format_time; web = web }

  -- The handler of any route but that of the web form.
  serve-Keeps :
      (e : Endpoint) (param : Bytes) (r : Request)
      → e ≢ upload_form
      → validate_user_id r.header_user_id ≢ none
      → Keeps (serve serving cfg handlers format_time e param) r
  unfolding serve
  serve-Keeps metrics param r other bad = record { at = λ c w. refl }
  serve-Keeps health param r other bad = record { at = λ c w. refl }
  serve-Keeps home param r other bad = record { at = λ c w. refl }
  serve-Keeps upload param r other bad =
      limited-Keeps serving _ _ r (upload_limited-Keeps serving _ r (user_id-Keeps _ r bad))
  serve-Keeps get_by_id param r other bad =
      limited-Keeps serving _ _ r (record {
        at = λ c w. get_by_id_handler-SameDb setup max_bytes format_time param r.image w;
      })
  serve-Keeps metadata param r other bad =
      limited-Keeps serving _ _ r
        (record { at = λ c w. metadata_handler-SameDb setup max_bytes format_time param w })
  serve-Keeps delete_by_id param r other bad = limited-Keeps serving _ _ r (user_id-Keeps _ r bad)
  serve-Keeps get_by_user param r other bad = limited-Keeps serving _ _ r (record {
    at = λ c w. get_by_user_handler-SameDb setup max_bytes format_time param r.image w;
  })
  serve-Keeps list_by_user param r other bad =
      limited-Keeps serving _ _ r
        (record { at = λ c w. list_by_user_handler-SameDb setup max_bytes format_time param w })
  serve-Keeps delete_by_user param r other bad = limited-Keeps serving _ _ r (user_id-Keeps _ r bad)
  serve-Keeps upload_page param r other bad =
      limited-Keeps serving _ _ r (record { at = λ c w. refl })
  serve-Keeps upload_form param r other bad = absurd (other refl)
  serve-Keeps gallery_page param r other bad =
      limited-Keeps serving _ _ r (record { at = λ c w. refl })
  serve-Keeps static param r other bad = limited-Keeps serving _ _ r (record { at = λ c w. refl })

  dispatch-Keeps :
      (o : Option (Endpoint × Bytes)) (r : Request)
      → ((param : Bytes) → o ≢ some (upload_form, param))
      → validate_user_id r.header_user_id ≢ none
      → Keeps (dispatch serving cfg handlers format_time o) r
  dispatch-Keeps none r other bad = record { at = λ c w. refl }
  dispatch-Keeps (some (e, param)) r other bad =
      serve-Keeps e param r (λ same. other param (ap (λ e. some (e, param)) same)) bad

  -- A request whose header X-User-ID is not valid, on any route but that of the web form, changes
  -- nothing in the tables.
  pub new_router-Keeps :
      (r : Request) (c : C) (w : World)
      → ((param : Bytes) → find_route serving routes r ≢ some (upload_form, param))
      → validate_user_id r.header_user_id ≢ none
      → (new_router serving cfg handlers format_time r (c, w)).1.1.db ≡ w.db
  unfolding new_router
  new_router-Keeps r c w other bad =
      let found = find_route serving routes r in
      let next = λ (r : Request) (s : C × World).
        dispatch serving cfg handlers format_time (find_route serving routes r) r s in
      let kept : Keeps next r = record { at = (dispatch-Keeps found r other bad).at } in
      (security_headers-Keeps (cors serving.packages cfg.cors_origins next) r
          (cors-Keeps serving cfg.cors_origins next r kept)).at
        c w
