-- ===== src/Tests/Worker.antt =====
-- Runs of the retries and of the consumer loop.
use goprofile.Prelude.{
  ℕ, zero, suc, Bytes, text, List, [], ◌∷◌, ◌++◌, ◌≡◌, false, refl, arith, length,
}
use goprofile.Result.{ok, err, Exec}
use goprofile.Domain.Errors.{external, is, is_permanent}
use goprofile.Services.Deps.{Observation}
use goprofile.World.{Message}
use goprofile.Worker.{Cursor, running, consume, with_retry}
use goprofile.Worker.Retry.{start, fails, worked, with_retry_lem}
use goprofile.Worker.Consume.{IsReader, committed-consume}

-- A handler that fails while the counter is not 0.
abbrev flaky : Exec ℕ (Unit {0})
flaky zero = (ok tt, 0)
flaky (suc n) = (err (external 1), n)

abbrev no_wait : ℕ → Exec ℕ (Unit {0})
no_wait backoff n = (ok tt, n)

with_retry_lem_example : with_retry no_wait flaky 3 2 ≡ (ok tt, 0)
unfolding is_permanent is
with_retry_lem_example =
    with_retry_lem no_wait flaky 3 2 2 0 0 (ok tt)
      (fails {s' = 1} {s'' = 1} (external 1) refl refl refl
        (fails {s' = 0} {s'' = 0} (external 1) refl refl refl start))
      (omega arith) refl worked

-- A broker's state: the messages that are left, and those that were committed.
abbrev Queue : Type 0
Queue = List Message × List Message

abbrev fetch : Exec Queue Message
fetch ([], done) = (err (external 2), ([], done))
fetch (m ∷ q, done) = (ok m, (q, done))

abbrev queue_cursor : Cursor Queue
queue_cursor = record {
  fetch = fetch;
  commit = λ m s. (ok tt, (s.0, s.1 ++ m ∷ []));
  is_done = λ s. false;
}

abbrev idle : ℕ → Exec Queue (Unit {0})
idle n s = (ok tt, s)

abbrev unseen : Observation → Queue → Queue
unseen o s = s

-- A handler that refuses every message.
abbrev refusing : Message → Exec Queue (Unit {0})
refusing m s = (err (external 3), s)

queue_fetch-cons :
    (s : Queue) (m : Message) (q : List Message)
    → s.0 ≡ m ∷ q
    → ((fetch s).0 ≡ ok m) × ((fetch s).1.0 ≡ q) × ((fetch s).1.1 ≡ s.1)
queue_fetch-cons ([], done) m q h = ground arith
queue_fetch-cons (n ∷ p, done) m q h = ground arith

queue-IsReader : IsReader queue_cursor idle unseen refusing (λ s. s.0) (λ s. s.1)
queue-IsReader = record {
  fetch-cons = queue_fetch-cons;
  commit_lem = λ s m. (refl, refl, refl);
  handle_keeps = λ s m. (refl, refl);
  wait_keeps = λ s n. (refl, refl);
  observe_keeps = λ s o. (refl, refl);
}

abbrev letter : Bytes → Message
letter key = record { topic = text "up"; key = key; value = text "{}"; headers = [] }

abbrev letters : List Message
letters = letter (text "1") ∷ letter (text "2") ∷ []

committed-consume_example :
    ((consume queue_cursor idle unseen refusing (length letters) (letters, [])).0 ≡ running)
    × ((consume queue_cursor idle unseen refusing (length letters) (letters, [])).1.0 ≡ [])
    × ((consume queue_cursor idle unseen refusing (length letters) (letters, [])).1.1
        ≡ [] ++ letters)
committed-consume_example =
    committed-consume queue_cursor idle unseen refusing (λ s. s.0) (λ s. s.1) queue-IsReader letters
      (letters, []) refl
