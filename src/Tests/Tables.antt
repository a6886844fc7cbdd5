-- ===== src/Tests/Tables.antt =====
-- Runs of the claim, of a transaction, and of the bucket.
use goprofile.Prelude.{
  ℕ, text, [], ◌∷◌, none, ◌≡◌, ◌⊎◌, true, false, refl, arith, if◌then◌else◌, ◌==◌, text_eq,
}
use goprofile.Result.{Result, ok}
use goprofile.Domain.Avatar.{OutboxEvent, outbox_upload, pending}
use goprofile.World.{World, Row, Db, works, breaks}
use goprofile.Repository.Tables.{select_one, is_claimable}
use goprofile.Repository.Statements.{claim}
use goprofile.Repository.Lease.{claim_excludes}
use goprofile.Repository.Tx.{with_tx}
use goprofile.Repository.Tx.Laws.{with_tx_atomic}
use goprofile.Repository.Queries.{insert_outbox}
use goprofile.Storage.{Bucket, object_at, remove_object}
use goprofile.Storage.Laws.{object_at-remove}
use goprofile.Tests.{test_row, test_world}

abbrev upload_row : Row
upload_row =
    let r = test_row 3 (text "ann") in
    record r { avatar = record r.avatar { processing_status = pending } }

abbrev pending_db : Db
pending_db = record { avatars = upload_row ∷ []; outbox = []; next_outbox_id = 1 }

claimed_lem : (claim 3 100 pending_db).0 ≡ true
unfolding claim select_one is_claimable
claimed_lem = refl

claim_excludes_example :
    claim 3 500 (claim 3 100 pending_db).1 ≡ (false, (claim 3 100 pending_db).1)
claim_excludes_example = claim_excludes 3 100 500 pending_db (tt, tt) claimed_lem (omega arith)

abbrev upload_made : OutboxEvent
upload_made = record {
  id = 0;
  event_id = text "upload:3";
  kind = outbox_upload;
  payload = text "{}";
}

-- The statement of the transaction fails.
abbrev failing : World
failing = record (test_world (upload_row ∷ []) []) {
  turns = record { outcome = works; elapsed = 1 } ∷ record { outcome = breaks; elapsed = 1 } ∷ [];
}

abbrev rolled_back : Result ℕ × World
rolled_back = with_tx (insert_outbox upload_made) failing

with_tx_atomic_example :
    (rolled_back.1.db ≡ failing.db)
    ⊎ ((w₁ w₂ : World) × (id : ℕ) × (w₁.db ≡ failing.db)
        × (insert_outbox upload_made w₁ ≡ (ok id, w₂))
        × (rolled_back.1.db ≡ w₂.db))
with_tx_atomic_example = with_tx_atomic (insert_outbox upload_made) failing

abbrev shelf : Bucket
shelf = (text "k", text "image/png", text "old") ∷ []

object_at-remove_example :
    object_at (text "j") (remove_object (text "k") shelf)
    ≡ (if text "k" == text "j" then none else object_at (text "j") shelf)
object_at-remove_example = object_at-remove (text "k") (text "j") shelf
