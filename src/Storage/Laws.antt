-- ===== src/Storage/Laws.antt =====
-- The bucket behind each call, and what the calls leave alone.
use goprofile.Prelude.{
  ◌≡◌, refl, Bytes, List, [], ◌∷◌, none, some, arith, eq_iff, ◌==◌, text_eq, if◌then◌else◌,
}
use goprofile.Text.{trim_space}
use goprofile.Result.{ok}
use goprofile.World.{World, external_call}
use goprofile.Repository.Tx.Laws.{NoLostReply}
use goprofile.Storage.{Bucket, object_at, put_object, remove_object, upload, remove_call, delete}

-- Behind a put the key has the type and the bytes that were put, and every other key what it had.
pub object_at-put :
    (k j kind body : Bytes) (b : Bucket)
    → object_at j (put_object k kind body b) ≡ (if k == j then some (kind, body) else object_at j b)
unfolding object_at put_object
object_at-put k j kind body [] = refl
object_at-put k j kind body ((i, kind', body') ∷ b) =
    ground (arith, object_at-put k j kind body b, eq_iff k j, eq_iff i k, eq_iff i j)

-- Behind a removal the key has no object, and every other key what it had.
pub object_at-remove :
    (k j : Bytes) (b : Bucket)
    → object_at j (remove_object k b) ≡ (if k == j then none else object_at j b)
unfolding object_at remove_object
object_at-remove k j [] = ground arith
object_at-remove k j ((i, kind', body') ∷ b) =
    ground (arith, object_at-remove k j b, eq_iff i j, eq_iff k j, eq_iff i k)

module _ (detect : Bytes → Bytes) (key kind body : Bytes) where
  pub db-upload : (w : World) → (upload detect key kind body w).1.db ≡ w.db
  unfolding upload external_call
  db-upload w = ground arith

  pub upload-NoLostReply :
      (w : World) → NoLostReply w → NoLostReply (upload detect key kind body w).1
  unfolding upload external_call
  upload-NoLostReply w h = ground arith

  pub upload-ok :
      (w w' : World)
      → upload detect key kind body w ≡ (ok tt, w')
      → w'.objects ≡ put_object key (if kind == [] then detect body else kind) body w.objects
  unfolding upload external_call
  upload-ok w w' h = ground arith

db-remove_call : (key : Bytes) (w : World) → (remove_call key w).1.db ≡ w.db
unfolding remove_call external_call
db-remove_call key w = ground arith

pub db-delete : (keys : List Bytes) (w : World) → (delete keys w).1.db ≡ w.db
unfolding delete
db-delete [] w = refl
db-delete (k ∷ keys) w = ground (
  arith,
  db-delete keys w,
  db-remove_call (trim_space k) w,
  db-delete keys (remove_call (trim_space k) w).1,
)
