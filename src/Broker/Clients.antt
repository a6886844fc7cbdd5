-- ===== src/Broker/Clients.antt =====
-- The clients of internal/broker/kafka.go: what they are made with, and what they do with the
-- connections of kafka-go, whose operations are parameters.
use goprofile.Prelude.{
  ℕ, ◌*◌, ◌^◌, ◌≡◌, ◌≢◌, refl, Bool, false, Bytes, List, [], ◌∷◌, Option, none, some,
}
use goprofile.Domain.Errors.{Err}
use goprofile.Result.{Exec, first_of, or_first, error, ◌>>=◌}
use goprofile.World.{Message}
use goprofile.Config.{Config}

-- kafka.Hash and kafka.RequireOne are the only values in use.
pub data Balancer : Type 0 where
  hash : Balancer

pub data RequiredAcks : Type 0 where
  require_none require_one require_all : RequiredAcks

-- kafka.Writer; times are in nanoseconds.
pub record Writer : Type 0 where
  pub addr : List Bytes
  pub topic : Bytes
  pub balancer : Balancer
  pub required_acks : RequiredAcks
  pub async : Bool
  pub batch_timeout : ℕ

pub record ProducerClient : Type 0 where
  pub upload_writer : Writer
  pub delete_writer : Writer
  pub brokers : List Bytes

unfoldable pub new_writer : List Bytes → Bytes → Writer
new_writer brokers topic = record {
  addr = brokers;
  topic = topic;
  balancer = hash;
  required_acks = require_one;
  async = false;
  batch_timeout = 10 * 10 ^ 6;
}

unfoldable pub new_producer : Config → ProducerClient
unfolding new_writer
new_producer cfg = record {
  upload_writer = new_writer cfg.kafka_brokers cfg.topic_upload;
  delete_writer = new_writer cfg.kafka_brokers cfg.topic_delete;
  brokers = cfg.kafka_brokers;
}

pub data Offset : Type 0 where
  first_offset last_offset : Offset

-- kafka.ReaderConfig
pub record ReaderConfig : Type 0 where
  pub brokers : List Bytes
  pub group_id : Bytes
  pub topic : Bytes
  pub min_bytes : ℕ
  pub max_bytes : ℕ
  pub max_wait : ℕ
  pub commit_interval : ℕ
  pub start_offset : Offset

unfoldable pub new_consumer : Config → Bytes → ReaderConfig
new_consumer cfg topic = record {
  brokers = cfg.kafka_brokers;
  group_id = cfg.kafka_group;
  topic = topic;
  min_bytes = 1;
  max_bytes = 10 * 2 ^ 20;
  max_wait = 500 * 10 ^ 6;
  commit_interval = 0;
  start_offset = first_offset;
}

-- Both writers are closed, whatever the first close says.
module _ {S : Type 0} (close_writer : Writer → Exec S (Unit {0})) where
  unfoldable pub close_writers : Option Err → List Writer → Exec S (Unit {0})
  close_writers first [] s = (or_first first, s)
  close_writers first (w ∷ writers) s =
      let (r, s') = close_writer w s in close_writers (first_of first (error r)) writers s'

  unfoldable pub close_producer : ProducerClient → Exec S (Unit {0})
  unfolding close_writers
  close_producer p = close_writers none (p.upload_writer ∷ p.delete_writer ∷ [])

-- The dial with a timeout of three seconds, the query for the brokers, and the close of a
-- connection.
pub record Dialing (S Conn : Type 0) : Type 0 where
  pub dial : Bytes → Exec S Conn
  pub query_brokers : Conn → Exec S (Unit {0})
  pub close_conn : Conn → S → S

module _ {S Conn : Type 0} (dialing : Dialing S Conn) where
  open dialing use {dial, query_brokers, close_conn}

  abbrev queried : Conn → Exec S (Unit {0})
  queried conn s = let (r, s') = query_brokers conn s in (r, close_conn conn s')

  -- `p.brokers[0]` panics where there is no broker: there is no answer then.
  abbrev pub ping_first : List Bytes → Option (Exec S (Unit {0}))
  ping_first [] = none
  ping_first (broker ∷ brokers) = some (dial broker >>= queried)

  unfoldable pub ping : ProducerClient → Option (Exec S (Unit {0}))
  ping p = ping_first p.brokers

-- The reader of kafka-go.
pub record Reader (S : Type 0) : Type 0 where
  pub fetch_message : Exec S Message
  pub commit_messages : List Message → Exec S (Unit {0})
  pub close_reader : Exec S (Unit {0})

module _ {S : Type 0} (reader : Reader S) where
  unfoldable pub fetch : Exec S Message
  fetch = reader.fetch_message

  unfoldable pub commit : Message → Exec S (Unit {0})
  commit msg = reader.commit_messages (msg ∷ [])

  unfoldable pub close_consumer : Exec S (Unit {0})
  close_consumer = reader.close_reader

-- The health check does not panic with a configuration that has a broker.
ping_first-some :
    {S Conn : Type 0} (dialing : Dialing S Conn) (brokers : List Bytes)
    → brokers ≢ []
    → (m : Exec S (Unit {0})) × (ping_first dialing brokers ≡ some m)
ping_first-some dialing [] h = absurd (h refl)
ping_first-some dialing (broker ∷ brokers) h = (_, refl)

ping-new_producer :
    {S Conn : Type 0} (dialing : Dialing S Conn) (cfg : Config)
    → cfg.kafka_brokers ≢ []
    → (m : Exec S (Unit {0})) × (ping dialing (new_producer cfg) ≡ some m)
unfolding ping new_producer
ping-new_producer dialing cfg h = ping_first-some dialing cfg.kafka_brokers h
