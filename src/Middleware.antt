-- ===== src/Middleware.antt =====
-- internal/middleware. A handler takes a request and the state, which has the counters of the rate
-- limits beside what the handlers act on. The packages of CORS and of rate limits are parameters.
use goprofile.Prelude.{
  ℕ, ◌*◌, ◌^◌, Bool, false, Bytes, text, List, [], ◌∷◌, ◌++◌, Option, none, some, length,
  if◌then◌else◌, ◌==◌, nat_eq, text_eq,
}
use goprofile.Prelude.Int.{ℤ, pos, leb_ℤ}
use goprofile.Text.Address.{split_host_port}
use goprofile.Domain.Errors.{Err}
use goprofile.Domain.Validate.{validate_user_id}
use goprofile.Http.{Response, Body, error_json, plain, FormReader}
use goprofile.Handlers.Avatars.{ImageRequest}

pub record Request : Type 0 where
  pub method : Bytes
  pub path : Bytes
  pub remote_addr : Bytes
  -- the header X-User-ID, and the user id in the context
  pub header_user_id : Bytes
  pub context_user_id : Bytes
  pub image : ImageRequest
  pub form : FormReader

abbrev pub Handler : Type 0 → Type 0 → Type 0
Handler C S = Request → C × S → Response × (C × S)

abbrev pub header_user : Bytes
header_user = text "X-User-ID"

-- The value of the context is a string, and empty where it is not set.
abbrev pub with_user_id : Bytes → Request → Request
with_user_id user_id r = record r { context_user_id = user_id }

abbrev pub user_id_from : Request → Bytes
user_id_from r = r.context_user_id

-- What is encoded here can always be encoded.
abbrev pub write_json : ℕ → Body → Response
write_json status body = record {
  status = status;
  headers = (text "Content-Type", text "application/json") ∷ [];
  body = body;
}

pub record CorsOptions : Type 0 where
  pub allowed_origins : List Bytes
  pub allowed_methods : List Bytes
  pub allowed_headers : List Bytes
  pub exposed_headers : List Bytes
  pub allow_credentials : Bool
  pub max_age : ℕ

unfoldable pub cors_options : List Bytes → CorsOptions
cors_options origins = record {
  allowed_origins = if length origins == 0 then text "*" ∷ [] else origins;
  allowed_methods = text "GET" ∷ text "POST" ∷ text "DELETE" ∷ text "OPTIONS" ∷ [];
  allowed_headers =
      text "Accept"
      ∷ text "Authorization"
      ∷ text "Content-Type"
      ∷ header_user
      ∷ text "Traceparent"
      ∷ text "Tracestate"
      ∷ text "Baggage"
      ∷ [];
  exposed_headers =
      text "ETag"
      ∷ text "Cache-Control"
      ∷ text "Content-Type"
      ∷ text "Traceparent"
      ∷ text "Tracestate"
      ∷ [];
  allow_credentials = false;
  max_age = 300;
}

-- The packages go-chi/cors and go-chi/httprate: the answer to a preflight request, the headers of
-- any other, and whether a request is within the limit of its key, by a count in the state.
pub record Packages (C : Type 0) : Type 0 where
  pub preflight : CorsOptions → Request → Option Response
  pub cors_headers : CorsOptions → Request → List (Bytes × Bytes)
  -- the limit, the window, and the key
  pub within : ℤ → ℕ → Bytes → C → Bool × C

unfoldable pub client_ip : Request → Bytes
unfolding split_host_port
client_ip r = elim (split_host_port r.remote_addr) [ none ↦ r.remote_addr | some host ↦ host ]

unfoldable pub rate_key : Request → Bytes
rate_key r = client_ip r ++ text ":" ++ r.method ++ text ":" ++ r.path

unfoldable pub upload_key : Request → Bytes
upload_key r = if r.header_user_id == [] then client_ip r else r.header_user_id

-- The answer of httprate, where none is given.
abbrev too_many : Response
too_many = record {
  status = 429;
  headers = (text "Content-Type", text "text/plain; charset=utf-8") ∷ [];
  body = plain (text "Too Many Requests");
}

-- time.Second, in nanoseconds.
abbrev second : ℕ
second = 10 ^ 9

module _ {C S : Type 0} where
  abbrev with_headers : List (Bytes × Bytes) → Response × (C × S) → Response × (C × S)
  with_headers headers (r, s) = (record r { headers = headers ++ r.headers }, s)

  unfoldable pub security_headers : Handler C S → Handler C S
  security_headers next r s =
      with_headers
        ((text "X-Content-Type-Options", text "nosniff")
          ∷ (text "X-Frame-Options", text "DENY")
          ∷ (text "Referrer-Policy", text "no-referrer")
          ∷ [])
        (next r s)

  abbrev checked_user : Option Err → Handler C S → Handler C S
  checked_user (some _) next r s = (
    write_json 400
        (error_json (text "Invalid user id") (some (text "X-User-ID header is required"))),
    s,
  )
  checked_user none next r s = next (with_user_id r.header_user_id r) s

  unfoldable pub user_id : Handler C S → Handler C S
  user_id next r s = checked_user (validate_user_id r.header_user_id) next r s

  module _ (packages : Packages C) where
    abbrev cors_answer : Option Response → CorsOptions → Handler C S → Handler C S
    cors_answer (some answer) options next r s = (answer, s)
    cors_answer none options next r s = with_headers (packages.cors_headers options r) (next r s)

    unfoldable pub cors : List Bytes → Handler C S → Handler C S
    unfolding cors_options
    cors origins next r s =
        cors_answer (packages.preflight (cors_options origins) r) (cors_options origins) next r s

    -- httprate.LimitBy
    abbrev pub limit_by : ℤ → ℕ → (Request → Bytes) → Response → Handler C S → Handler C S
    limit_by n window key refusal next r (c, s) =
        let (inside, c') = packages.within n window (key r) c in
        if inside then next r (c', s) else (refusal, (c', s))

    unfoldable pub rate_limit : ℤ → Handler C S → Handler C S
    unfolding rate_key
    rate_limit rps = limit_by (if leb_ℤ rps (pos 0) then pos 20 else rps) second rate_key too_many

    unfoldable pub upload_rate_limit : Handler C S → Handler C S
    unfolding upload_key
    upload_rate_limit =
        limit_by (pos 10) (60 * second) upload_key
          (write_json 429 (error_json (text "Too many upload requests") none))
