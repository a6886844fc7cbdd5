-- ===== src/Handlers/Avatars/Laws.antt =====
-- The limit on the size of an upload, as the handler reads it.
use goprofile.Prelude.{
  ℕ, zero, suc, ◌+◌, ◌≤◌, ◌<◌, ◌≡◌, ◌^◌, refl, ap, ◌∙◌, Bytes, List, [], ◌∷◌, length, take,
  length-take, false, arith,
}
use goprofile.Prelude.Int.{pos, pos_part, add64, ◌+ℤ◌}
use goprofile.Domain.Errors.{sentinel, file_too_large}
use goprofile.Services.Upload.{upload}
use goprofile.Http.{FormReader, with_file}
use goprofile.Handlers.Errors.{write_error}
use goprofile.Handlers.Avatars.{AvatarHandler, body_limit, answer, uploaded, upload_handler}

take-all : {A : Type 0} (n : ℕ) (xs : List A) → length xs ≤ n → take n xs ≡ xs
take-all zero [] h = refl
take-all zero (x ∷ xs) h = absurd (omega arith)
take-all (suc n) [] h = refl
take-all (suc n) (x ∷ xs) h = rw (take-all n xs (omega arith))

one_more : (m : ℕ) → m + 1 < 2 ^ 63 → add64 (pos m) (pos 1) ≡ pos (m + 1)
unfolding ◌+ℤ◌
one_more m h = ground arith

module _ {S Image : Type 0} (h : AvatarHandler S Image) (format_time : ℕ → Bytes) where
  -- Where one more than the limit is an int64, a file with more bytes than the limit, which is read
  -- without an error, is answered with the error for files that are too large, and the state stays
  -- as it is.
  upload_handler-too_large :
      (m : ℕ) (user_id field name content : Bytes) (form : FormReader) (s : S)
      → h.max_bytes ≡ pos m
      → m + 1 < 2 ^ 63
      → form (body_limit h.max_bytes) h.max_bytes ≡ with_file field name content false
      → m < length content
      → upload_handler h format_time user_id form s ≡ (write_error (sentinel file_too_large), s)
  unfolding upload_handler
  upload_handler-too_large m user_id field name content form s limit fits read large =
      let more : add64 h.max_bytes (pos 1) ≡ pos (m + 1) =
        ap (λ n. add64 n (pos 1)) limit ∙ one_more m fits in
      ground (arith, ap (λ n. take (pos_part n) content) more, length-take (m + 1) content)

  -- Where one more than the limit is an int64, a file within the limit, which is read without an
  -- error, is handed to the service whole, and the answer is made of its result.
  pub upload_handler-whole :
      (m : ℕ) (user_id field name content : Bytes) (form : FormReader) (s : S)
      → h.max_bytes ≡ pos m
      → m + 1 < 2 ^ 63
      → form (body_limit h.max_bytes) h.max_bytes ≡ with_file field name content false
      → length content ≤ m
      → upload_handler h format_time user_id form s
        ≡ answer h format_time (uploaded h format_time) (upload h.svc user_id name content s)
  unfolding upload_handler
  upload_handler-whole m user_id field name content form s limit fits read small =
      let more : add64 h.max_bytes (pos 1) ≡ pos (m + 1) =
        ap (λ n. add64 n (pos 1)) limit ∙ one_more m fits in
      ground (arith, ap (λ n. take (pos_part n) content) more, take-all (m + 1) content)
