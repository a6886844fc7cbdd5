-- ===== src/Storage.antt =====
-- internal/storage/s3.go. The MinIO client is taken at what S3 documents: a put replaces, a get of a
-- missing key fails, a removal of a missing key works.
pub mod Laws
use goprofile.Prelude.{
  Bool, not, Bytes, text, List, [], ◌∷◌, Option, none, some, if◌then◌else◌, ◌==◌, text_eq,
}
use goprofile.Text.{trim_space}
use goprofile.Result.{Result, ok, err, Exec, return, ◌>>=◌, ◌>>◌}
use goprofile.Domain.Errors.{external}
use goprofile.Services.Deps.{ObjectStore}
use goprofile.World.{World, external_call}
use goprofile.Result.{naming}

abbrev pub Bucket : Type 0
Bucket = List (Bytes × Bytes × Bytes)

unfoldable pub object_at : Bytes → Bucket → Option (Bytes × Bytes)
object_at k [] = none
object_at k ((j, kind, body) ∷ b) = if j == k then some (kind, body) else object_at k b

unfoldable pub put_object : Bytes → Bytes → Bytes → Bucket → Bucket
put_object k kind body [] = (k, kind, body) ∷ []
put_object k kind body ((j, kind', body') ∷ b) =
    if j == k then (k, kind, body) ∷ b else (j, kind', body') ∷ put_object k kind body b

unfoldable pub remove_object : Bytes → Bucket → Bucket
remove_object k [] = []
remove_object k ((j, kind, body) ∷ b) =
    let rest = remove_object k b in if j == k then rest else (j, kind, body) ∷ rest

-- http.DetectContentType is a parameter.
module _ (detect_content_type : Bytes → Bytes) where
  unfoldable pub upload : Bytes → Bytes → Bytes → Exec World (Unit {0})
  unfolding external_call
  upload key content_type body =
      let kind = if content_type == [] then detect_content_type body else content_type in
      naming (text "put object")
        (external_call (λ w. (ok tt, record w { objects = put_object key kind body w.objects })))

abbrev found : Option (Bytes × Bytes) → Result (Bytes × Bytes)
found none = err (external 3)
found (some (kind, body)) = ok (body, kind)

-- The body and the content type. GetObject, Stat and ReadAll are one call.
unfoldable pub download : Bytes → Exec World (Bytes × Bytes)
unfolding object_at external_call
download key =
    naming (text "get object") (external_call (λ w. (found (object_at key w.objects), w)))

unfoldable pub remove_call : Bytes → Exec World (Unit {0})
unfolding remove_object external_call
remove_call key =
    naming (text "remove object")
      (external_call (λ w. (ok tt, record w { objects = remove_object key w.objects })))

-- The first error ends the loop.
unfoldable pub delete : List Bytes → Exec World (Unit {0})
delete [] = return tt
delete (k ∷ keys) =
    let rest = delete keys in
    let key = trim_space k in if key == [] then rest else (remove_call key >> rest)

abbrev pub bucket_store : (Bytes → Bytes) → ObjectStore World
bucket_store detect = record { upload = upload detect; download = download; delete = delete }

-- BucketExists and MakeBucket of the client are parameters.
module _ {S : Type 0} (bucket_exists : Exec S Bool) (make_bucket : Exec S (Unit {0})) where
  unfoldable pub ensure_bucket : Exec S (Unit {0})
  ensure_bucket = do
    exists ← naming (text "bucket exists") bucket_exists
    if exists then return tt else naming (text "make bucket") make_bucket

  unfoldable pub ping : Exec S (Unit {0})
  ping = do _ ← bucket_exists; return tt
