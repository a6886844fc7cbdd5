-- ===== src/Worker/Consume.antt =====
-- The consumer loop takes the messages in order and commits each of them, whatever its handler does.
use goprofile.Prelude.{
  ℕ, zero, suc, ◌*◌, ◌≡◌, refl, sym, ◌∙◌, text, List, [], ◌∷◌, ◌++◌, arith, length,
}
use mathlib.Core.List.{append_assoc, append-nil}
use goprofile.Result.{Result, ok, err, Exec}
use goprofile.Services.Deps.{Observation, kafka_messages, status_ok, status_error}
use goprofile.World.{Message}
use goprofile.Worker.{
  attempts, Cursor, running, retry_rounds, with_retry, commit_handled, handle_message,
  consume_round, consume,
}

-- What the consumer relies on of its reader, where the broker is reachable: a fetch gives the next
-- message, a commit records it; and that handlers, waits and metrics leave both alone.
pub record IsReader {S : Type 0} (cursor : Cursor S) (wait : ℕ → Exec S (Unit {0}))
    (observe : Observation → S → S) (handle : Message → Exec S (Unit {0}))
    (pending committed : S → List Message) : Type 0 where
  pub fetch-cons :
      (s : S) (m : Message) (q : List Message)
      → pending s ≡ m ∷ q
      → ((cursor.fetch s).0 ≡ ok m)
        × (pending (cursor.fetch s).1 ≡ q)
        × (committed (cursor.fetch s).1 ≡ committed s)
  pub commit_lem :
      (s : S) (m : Message)
      → ((cursor.commit m s).0 ≡ ok tt)
        × (pending (cursor.commit m s).1 ≡ pending s)
        × (committed (cursor.commit m s).1 ≡ committed s ++ m ∷ [])
  pub handle_keeps :
      (s : S) (m : Message)
      → (pending (handle m s).1 ≡ pending s) × (committed (handle m s).1 ≡ committed s)
  pub wait_keeps :
      (s : S) (n : ℕ) → (pending (wait n s).1 ≡ pending s) × (committed (wait n s).1 ≡ committed s)
  pub observe_keeps :
      (s : S) (o : Observation)
      → (pending (observe o s) ≡ pending s) × (committed (observe o s) ≡ committed s)

module _ {S : Type 0} (cursor : Cursor S) (wait : ℕ → Exec S (Unit {0}))
    (observe : Observation → S → S) (handle : Message → Exec S (Unit {0}))
    (pending committed : S → List Message)
    (reader : IsReader cursor wait observe handle pending committed) where
  retry_keeps :
      (n backoff : ℕ) (m : Message) (s : S)
      → (pending (retry_rounds wait (handle m) n backoff s).1 ≡ pending s)
        × (committed (retry_rounds wait (handle m) n backoff s).1 ≡ committed s)
  unfolding retry_rounds
  retry_keeps zero backoff m s = (refl, refl)
  retry_keeps (suc zero) backoff m s = reader.handle_keeps s m
  retry_keeps (suc (suc n)) backoff m s = ground (
    arith,
    reader.handle_keeps s m,
    reader.wait_keeps (handle m s).1 backoff,
    retry_keeps (suc n) (backoff * 2) m (wait backoff (handle m s).1).1,
  )

  with_retry_keeps :
      (n : ℕ) (m : Message) (s : S)
      → (pending (with_retry wait (handle m) n s).1 ≡ pending s)
        × (committed (with_retry wait (handle m) n s).1 ≡ committed s)
  unfolding with_retry
  with_retry_keeps n m s = retry_keeps n _ m s

  commit_handled_lem :
      (m : Message) (r : Result (Unit {0})) (s : S)
      → ((commit_handled cursor wait observe handle m r s).0 ≡ running)
        × (pending (commit_handled cursor wait observe handle m r s).1 ≡ pending s)
        × (committed (commit_handled cursor wait observe handle m r s).1 ≡ committed s ++ m ∷ [])
  commit_handled_lem m (ok _) s =
      let o = kafka_messages (text "consume") m.topic status_ok in
      ground (arith, reader.observe_keeps s o, reader.commit_lem (observe o s) m)
  commit_handled_lem m (err _) s =
      let o = kafka_messages (text "consume") m.topic status_error in
      ground (arith, reader.observe_keeps s o, reader.commit_lem (observe o s) m)

  handle_message_lem :
      (m : Message) (s : S)
      → ((handle_message cursor wait observe handle m s).0 ≡ running)
        × (pending (handle_message cursor wait observe handle m s).1 ≡ pending s)
        × (committed (handle_message cursor wait observe handle m s).1 ≡ committed s ++ m ∷ [])
  unfolding handle_message
  handle_message_lem m s =
      let (r, s') = with_retry wait (handle m) attempts s in
      ground (arith, with_retry_keeps attempts m s, commit_handled_lem m r s')

  consume_round_lem :
      (s : S) (m : Message) (q : List Message)
      → pending s ≡ m ∷ q
      → ((consume_round cursor wait observe handle s).0 ≡ running)
        × (pending (consume_round cursor wait observe handle s).1 ≡ q)
        × (committed (consume_round cursor wait observe handle s).1 ≡ committed s ++ m ∷ [])
  unfolding consume_round
  consume_round_lem s m q h =
      ground (arith, reader.fetch-cons s m q h, handle_message_lem m (cursor.fetch s).1)

  -- With a broker that is reachable, the loop is still running behind as many rounds as there are
  -- messages, and has committed all of them, each once and in their order, behind those that were
  -- committed before; whatever results the handler gives, errors of every kind included.
  pub committed-consume :
      (q : List Message) (s : S)
      → pending s ≡ q
      → ((consume cursor wait observe handle (length q) s).0 ≡ running)
        × (pending (consume cursor wait observe handle (length q) s).1 ≡ [])
        × (committed (consume cursor wait observe handle (length q) s).1 ≡ committed s ++ q)
  unfolding consume
  committed-consume [] s h = (refl, h, sym (append-nil _))
  committed-consume (m ∷ q) s h =
      let s' = (consume_round cursor wait observe handle s).1 in
      let (runs, rest, done) = consume_round_lem s m q h in
      let (runs', rest', done') = committed-consume q s' rest in
      rw (runs, consume) (runs', rest', done' ∙ rw done (append_assoc (committed s) (m ∷ []) q))
