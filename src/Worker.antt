-- ===== src/Worker.antt =====
-- internal/worker/worker.go: retries, the consumer loop, the handlers of the two topics and the
-- maintenance round. The three goroutines of `Run` share only the service.
pub mod Retry
pub mod Consume
pub mod Run
use goprofile.Prelude.{
  ℕ, zero, suc, ◌*◌, ◌^◌, Bool, true, false, Bytes, text, [], ◌∷◌, Option, none, some,
  if◌then◌else◌, ◌==◌, text_eq,
}
use goprofile.Result.{Result, ok, err, Exec, fail, attempt, ignore, modify, ◌>>=◌, ◌>>◌}
use goprofile.Domain.Errors.{Err, is_permanent, permanent, wrapped}
use goprofile.Domain.Events.{AvatarUploadEvent, AvatarDeleteEvent, upload_event_id, delete_event_id}
use goprofile.Services.Deps.{AvatarService, Observation, kafka_messages, status_ok, status_error}
use goprofile.Services.Outbox.{flush_outbox}
use goprofile.Services.Process.{process_upload, recover_stuck}
use goprofile.Services.Delete.{process_delete}
use goprofile.World.{Message}
use goprofile.Broker.{event_id_from}

-- The field `attempts` of `New`
abbrev pub attempts : ℕ
attempts = 5

module _ {S : Type 0} (wait : ℕ → Exec S (Unit {0})) (fn : Exec S (Unit {0})) where
  -- The rounds left of `withRetry`, with the time to wait after a failure.
  unfoldable pub retry_rounds : ℕ → ℕ → Exec S (Unit {0})
  retry_rounds zero backoff s = (ok tt, s)
  retry_rounds (suc zero) backoff s = fn s
  retry_rounds (suc (suc n)) backoff s =
      let again = retry_rounds (suc n) (backoff * 2) in
      let (r, s') = fn s in
      elim r [
        | ok _ ↦ (ok tt, s')
        | err e ↦ if is_permanent e then (err e, s') else (wait backoff >> again) s'
      ]

  unfoldable pub with_retry : ℕ → Exec S (Unit {0})
  with_retry attempts = retry_rounds attempts (200 * 10 ^ 6)

-- `kafkaCursor`, and whether the worker's context is done
pub record Cursor (S : Type 0) : Type 0 where
  pub fetch : Exec S Message
  pub commit : Message → Exec S (Unit {0})
  pub is_done : S → Bool

-- How a round of the loop of `consume` ends: with the next, or by a return.
pub data Round : Type 0 where
  running : Round
  returned : Result (Unit {0}) → Round

module _ {S : Type 0} (cursor : Cursor S) (wait : ℕ → Exec S (Unit {0}))
    (observe : Observation → S → S) (handle : Message → Exec S (Unit {0})) where
  abbrev pub after_commit : Bytes → Result (Unit {0}) → Round
  after_commit message (ok _) = running
  after_commit message (err e) = returned (err (wrapped message e))

  -- A message is committed whether its handler worked or failed for good.
  abbrev pub commit_handled : Message → Result (Unit {0}) → S → Round × S
  commit_handled msg (ok _) s =
      let (r, s') =
        cursor.commit msg (observe (kafka_messages (text "consume") msg.topic status_ok) s) in
      (after_commit (text "commit") r, s')
  commit_handled msg (err _) s =
      let (r, s') =
        cursor.commit msg (observe (kafka_messages (text "consume") msg.topic status_error) s) in
      (after_commit (text "commit dropped message") r, s')

  unfoldable pub handle_message : Message → S → Round × S
  handle_message msg s =
      let (r, s') = with_retry wait (handle msg) attempts s in commit_handled msg r s'

  abbrev pub fetched : Result Message → S → Round × S
  fetched (ok msg) s = handle_message msg s
  fetched (err e) s = (returned (if cursor.is_done s then ok tt else err e), s)

  unfoldable pub consume_round : S → Round × S
  consume_round s = let (r, s') = cursor.fetch s in fetched r s'

  -- The state after at most so many rounds of `consume`.
  unfoldable pub consume : ℕ → S → Round × S
  consume zero s = (running, s)
  consume (suc n) s =
      let rest = consume n in
      let (round, s') = consume_round s in
      elim round [ running ↦ rest s' | returned r ↦ (returned r, s') ]

module _ {S Image : Type 0} (service : AvatarService S Image) where
  open service use {library}

  -- An id of the header or else of the event, or else the one made of the avatar's id
  abbrev event_id_or : Bytes → Bytes → Bytes
  event_id_or id made = if id == [] then made else id

  abbrev decoded_upload : Message → Result AvatarUploadEvent → Exec S (Unit {0})
  decoded_upload msg (err e) = fail (permanent (wrapped (text "decode upload event") e))
  decoded_upload msg (ok event) = process_upload service (record event {
    event_id =
        event_id_or (event_id_from msg.headers event.event_id) (upload_event_id event.avatar_id);
  })

  unfoldable pub handle_upload : Message → Exec S (Unit {0})
  handle_upload msg = decoded_upload msg (library.unmarshal_upload msg.value)

  abbrev decoded_delete : Message → Result AvatarDeleteEvent → Exec S (Unit {0})
  decoded_delete msg (err e) = fail (permanent (wrapped (text "decode delete event") e))
  decoded_delete msg (ok event) = process_delete service (record event {
    event_id =
        event_id_or (event_id_from msg.headers event.event_id) (delete_event_id event.avatar_id);
  })

  unfoldable pub handle_delete : Message → Exec S (Unit {0})
  handle_delete msg = decoded_delete msg (library.unmarshal_delete msg.value)

  -- `runMaintenance`, whose errors are only logged
  unfoldable pub run_maintenance : S → S
  run_maintenance s = (recover_stuck service (flush_outbox service s).1).1

  unfoldable pub ticks : ℕ → S → S
  unfolding run_maintenance
  ticks zero s = s
  ticks (suc n) s = ticks n (run_maintenance s)

  -- `maintenance`, at whose ticker the context was found done behind `n` ticks
  unfoldable pub maintenance : ℕ → S → S
  unfolding run_maintenance ticks
  maintenance n s = ticks n (run_maintenance s)
