-- ===== src/Handlers/Errors/Laws.antt =====
-- Which errors are the client's and which are the server's.
use goprofile.Prelude.{◌≡◌, ◌↔◌, List, [], ◌∷◌, All, false, arith}
use goprofile.Domain.Errors.{
  Err, Sentinel, is, avatar_not_found, forbidden, invalid_user_id, file_required, file_too_large,
  invalid_file_format, invalid_image, image_too_large, invalid_size_param, invalid_format_param,
}
use goprofile.Handlers.Errors.{write_json, write_error}

-- The errors that a client can make.
abbrev pub client_errors : List Sentinel
client_errors =
    avatar_not_found ∷ forbidden ∷ invalid_user_id ∷ file_required ∷ file_too_large
    ∷ invalid_file_format ∷ invalid_image ∷ image_too_large ∷ invalid_size_param
    ∷ invalid_format_param ∷ []

-- An error is answered with 500 exactly when none of the errors that a client can make is in its
-- chain.
pub write_error_lem :
    (e : Err) → ((write_error e).status ≡ 500) ↔ All (λ t. is e t ≡ false) client_errors
unfolding write_error write_json
write_error_lem e = ground arith
