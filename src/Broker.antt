-- ===== src/Broker.antt =====
-- internal/broker/kafka.go: the producer, the id of a consumed event, and the creation of topics.
pub mod Laws
pub mod Clients
use goprofile.Prelude.{
  ℕ, ◌&&◌, not, Bytes, text, List, [], ◌∷◌, ◌++◌, Option, none, some, if◌then◌else◌, ◌==◌, text_eq,
}
use goprofile.Result.{Result, ok, err, Exec, lift, attempt, modify, ◌>>=◌, ◌>>◌}
use goprofile.Domain.Errors.{Err, external}
use goprofile.Domain.Events.{AvatarUploadEvent, AvatarDeleteEvent}
use goprofile.Services.Deps.{EventPublisher, Library, Observation, kafka_messages, status_of}
use goprofile.World.{World, Header, Message, external_call}
use goprofile.Result.{named_error}

abbrev pub event_id_key : Bytes
event_id_key = text "event_id"

-- `EventIDFrom`
unfoldable pub event_id_from : List Header → Bytes → Bytes
event_id_from [] fallback = fallback
event_id_from (h ∷ headers) fallback =
    if h.key == event_id_key && not (h.value == []) then h.value else event_id_from headers fallback

-- The topics of the configuration, and the propagator's Inject, which adds its own headers.
pub record Producer : Type 0 where
  pub topic_upload : Bytes
  pub topic_delete : Bytes
  pub inject : List Header → List Header

unfoldable pub observe : Observation → World → World
observe o w = record w { metrics = o ∷ w.metrics }

-- kafka.Writer.WriteMessages
unfoldable pub write_message : Message → Exec World (Unit {0})
write_message msg = external_call (λ w. (ok tt, record w { topics = w.topics ++ msg ∷ [] }))

module _ (p : Producer) where
  unfoldable pub message_of : Bytes → Bytes → Bytes → Bytes → Message
  message_of topic key event_id body = record {
    topic = topic;
    key = key;
    value = body;
    headers = p.inject (record { key = event_id_key; value = event_id } ∷ []);
  }

  -- `writeJSON`, with the result of json.Marshal
  unfoldable pub write_json : Bytes → Bytes → Bytes → Result Bytes → Exec World (Unit {0})
  write_json topic key event_id marshalled = do
    body ← lift (named_error (text "marshal event") marshalled)
    written ← attempt (write_message (message_of topic key event_id body))
    modify (observe (kafka_messages (text "publish") topic (status_of written)))
    lift (named_error (text "publish") written)

module _ {Image : Type 0} (library : Library Image) (p : Producer) where
  unfoldable pub publish_upload : AvatarUploadEvent → Exec World (Unit {0})
  publish_upload event =
      write_json p p.topic_upload event.avatar_id event.event_id (library.marshal_upload event)

  unfoldable pub publish_delete : AvatarDeleteEvent → Exec World (Unit {0})
  publish_delete event =
      write_json p p.topic_delete event.avatar_id event.event_id (library.marshal_delete event)

  abbrev pub kafka_publisher : EventPublisher World
  kafka_publisher = record { publish_upload = publish_upload; publish_delete = publish_delete }

-- What `createTopics` uses of kafka-go: a dial, the controller's host and port, and the creation.
pub record Admin (S Conn : Type 0) : Type 0 where
  pub dial : Bytes → Exec S Conn
  pub controller : Conn → Exec S (Bytes × ℕ)
  pub join_host_port : Bytes → ℕ → Bytes
  pub create : Conn → List (Bytes × ℕ × ℕ) → Exec S (Unit {0})
  pub close : Conn → Exec S (Unit {0})

-- Topic, partitions and replication factor
unfoldable pub topic_configs : List Bytes → List (Bytes × ℕ × ℕ)
topic_configs [] = []
topic_configs (t ∷ topics) = (t, 3, 1) ∷ topic_configs topics

module _ {S A : Type 0} where
  -- `defer close()`: it runs behind the rest, whatever its result.
  abbrev deferring : Exec S (Unit {0}) → Exec S A → Exec S A
  deferring close m s = let (r, s') = m s in (r, (close s').1)

module _ {S Conn : Type 0} (admin : Admin S Conn) where
  unfoldable pub create_topics : List Bytes → Bytes → Exec S (Unit {0})
  create_topics topics broker = do
    conn ← admin.dial broker
    deferring (admin.close conn) (do
      (host, port) ← admin.controller conn
      ctrl ← admin.dial (admin.join_host_port host port)
      deferring (admin.close ctrl) (admin.create ctrl (topic_configs topics)))

  abbrev pub no_brokers : Err
  no_brokers = external 4

  -- The loop of `EnsureTopics`: the first broker that takes the topics ends it.
  unfoldable pub ensure_topics_from : List Bytes → Option Err → List Bytes → Exec S (Unit {0})
  ensure_topics_from topics none [] s = (err no_brokers, s)
  ensure_topics_from topics (some last) [] s = (err last, s)
  ensure_topics_from topics last (broker ∷ brokers) s =
      let (r, s') = create_topics topics broker s in
      elim r [ ok _ ↦ (ok tt, s') | err e ↦ ensure_topics_from topics (some e) brokers s' ]

  unfoldable pub ensure_topics : List Bytes → List Bytes → Exec S (Unit {0})
  ensure_topics topics brokers = ensure_topics_from topics none brokers
