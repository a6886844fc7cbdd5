-- ===== src/World.antt =====
-- What the program acts on: the tables of migrations/*.sql, the bucket, the Kafka topics, the clock
-- and the source of UUIDs. What an external call does next is a list of turns, over which the
-- theorems quantify; past its end every call works.
use goprofile.Prelude.{ℕ, ◌+◌, Bytes, List, [], ◌∷◌, Option}
use goprofile.Result.{Result, ok, err, Exec}
use goprofile.Domain.Errors.{external}
use goprofile.Domain.Avatar.{Uuid, Avatar, Kind}
use goprofile.Services.Deps.{Observation, Runtime}

-- A row of `avatars`: the columns that are fields of the struct, and the JSON column, where none
-- stands for NULL.
pub record Row : Type 0 where
  pub avatar : Avatar
  pub open avatar use *
  pub thumbnails : Option Bytes

pub record OutboxRow : Type 0 where
  pub id : ℕ
  pub event_id : Bytes
  pub kind : Kind
  pub payload : Bytes
  pub published_at : Option ℕ

pub record Db : Type 0 where
  pub avatars : List Row
  pub outbox : List OutboxRow
  -- the sequence behind BIGSERIAL
  pub next_outbox_id : ℕ

-- kafka.Header and kafka.Message
pub record Header : Type 0 where
  pub key : Bytes
  pub value : Bytes

pub record Message : Type 0 where
  pub topic : Bytes
  pub key : Bytes
  pub value : Bytes
  pub headers : List Header

-- A call works, or fails with no effect, or has its effect and fails to say so.
pub data Outcome : Type 0 where
  works breaks lost_reply : Outcome

pub record Turn : Type 0 where
  pub outcome : Outcome
  pub elapsed : ℕ

pub record World : Type 0 where
  pub db : Db
  pub objects : List (Bytes × Bytes × Bytes)
  pub topics : List Message
  pub now : ℕ
  pub uuids : ℕ → Uuid
  pub drawn : ℕ
  pub turns : List Turn
  pub metrics : List Observation

-- The outcome of the next external call, with the time that it took.
abbrev pub take_turn : List Turn → Turn × List Turn
take_turn [] = (record { outcome = works; elapsed = 0 }, [])
take_turn (t ∷ ts) = (t, ts)

abbrev pub begin_call : World → Outcome × World
begin_call w =
    let (t, ts) = take_turn w.turns in (t.outcome, record w { now = w.now + t.elapsed; turns = ts })

module _ {A : Type 0} where
  -- A call that has the given effect.
  abbrev pub settle : {S : Type 0} → Outcome → Result A × S → S → Result A × S
  settle works after before = after
  settle breaks after before = (err (external 1), before)
  settle lost_reply (_, after) before = (err (external 1), after)

  unfoldable pub external_call : (World → Result A × World) → Exec World A
  external_call effect w = let (o, w') = begin_call w in settle o (effect w') w'

-- The clock, uuid.New and the metrics. A wait is cut short where the context is done.
unfoldable pub real_runtime : Runtime World
unfolding external_call
real_runtime = record {
  clock = λ w. w.now;
  new_uuid = λ w. (w.uuids w.drawn, record w { drawn = w.drawn + 1 });
  wait = λ backoff. external_call (λ w. (ok tt, record w { now = w.now + backoff }));
  observe = λ o w. record w { metrics = o ∷ w.metrics };
}
