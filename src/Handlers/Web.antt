-- ===== src/Handlers/Web.antt =====
-- internal/handlers/web.go. The pages are static files.
use goprofile.Prelude.{
  ℕ, ◌++◌, Bytes, text, [], ◌∷◌, Bool, true, false, Option, none, some, length, if◌then◌else◌, ◌==◌,
  text_eq,
}
use goprofile.Prelude.Int.{ℤ, pos, ltb_ℤ}
use goprofile.Text.{trim_space}
use goprofile.Result.{Result, ok, err}
use goprofile.Domain.Errors.{Err}
use goprofile.Domain.Avatar.{Avatar}
use goprofile.Domain.Validate.{validate_user_id}
use goprofile.Services.Deps.{AvatarService, effective_max}
use goprofile.Services.Upload.{upload}
use goprofile.Http.{
  Response, empty, plain, Form, over_limit, malformed, no_file, with_file, FormReader,
}
use goprofile.Handlers.Errors.{write_error}
use goprofile.Handlers.Avatars.{limited, body_limit}

pub record WebHandler (S Image : Type 0) : Type 0 where
  pub svc : AvatarService S Image
  pub max_bytes : ℤ

-- http.Error
abbrev http_error : ℕ → Bytes → Response
http_error status message = record {
  status = status;
  headers = (text "Content-Type", text "text/plain; charset=utf-8") ∷ [];
  body = plain message;
}

module _ {S Image : Type 0} where
  unfoldable pub new_web_handler : AvatarService S Image → ℤ → WebHandler S Image
  new_web_handler svc max_bytes = record { svc = svc; max_bytes = effective_max max_bytes }

-- The form's value, or else the header's, without white space at the ends.
unfoldable pub form_user_id : Bytes → Bytes → Bytes
form_user_id value header =
    let user_id = trim_space value in if user_id == [] then trim_space header else user_id

module _ {S Image : Type 0} (h : WebHandler S Image) where
  open h use {svc, max_bytes}

  abbrev redirected : Result Avatar × S → Response × S
  redirected (ok a, s) = (
    record {
      status = 303;
      headers = (text "Location", text "/web/gallery/" ++ a.user_id) ∷ [];
      body = empty;
    },
    s,
  )
  redirected (err e, s) = (write_error e, s)

  -- Behind the check of the user id: the file's name, bytes, and whether reading fails, if it is
  -- there.
  abbrev web_file : Bytes → Option (Bytes × Bytes × Bool) → S → Response × S
  web_file user_id none s = (http_error 400 (text "file is required"), s)
  web_file user_id (some (name, content, true)) s = (http_error 400 (text "failed to read file"), s)
  web_file user_id (some (name, content, false)) s =
      if ltb_ℤ max_bytes (pos (length (limited max_bytes content)))
      then (http_error 413 (text "file too large"), s)
      else redirected (upload svc user_id name (limited max_bytes content) s)

  abbrev web_checked : Bytes → Option Err → Option (Bytes × Bytes × Bool) → S → Response × S
  web_checked user_id (some _) file s = (http_error 400 (text "user_id is required"), s)
  web_checked user_id none file s = web_file user_id file s

  abbrev web_form : Bytes → Form → S → Response × S
  web_form header over_limit s = (http_error 400 (text "invalid form"), s)
  web_form header malformed s = (http_error 400 (text "invalid form"), s)
  web_form header (no_file value) s =
      let user_id = form_user_id value header in
      web_checked user_id (validate_user_id user_id) none s
  web_form header (with_file value name content fails) s =
      let user_id = form_user_id value header in
      web_checked user_id (validate_user_id user_id) (some (name, content, fails)) s

  -- The header X-User-ID, and the form.
  unfoldable pub upload_form_handler : Bytes → FormReader → S → Response × S
  upload_form_handler header form s = web_form header (form (body_limit max_bytes) max_bytes) s

-- The file server of net/http, over the path of a request.
module _ (file_server : Bytes → Response) where
  -- The request goes on with the path of the file.
  unfoldable pub serve_file : Bytes → Response
  serve_file name = file_server (text "/" ++ name)

  unfoldable pub upload_page_handler : Response
  unfolding serve_file
  upload_page_handler = serve_file (text "upload.html")

  unfoldable pub gallery_page_handler : Response
  unfolding serve_file
  gallery_page_handler = serve_file (text "gallery.html")

  unfoldable pub static_handler : Bytes → Response
  static_handler path = file_server path
