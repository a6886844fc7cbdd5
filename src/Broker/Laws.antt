-- ===== src/Broker/Laws.antt =====
-- The id of an event behind its way through a message's headers.
use goprofile.Prelude.{◌≡◌, ◌≢◌, Bytes, List, [], ◌∷◌, ◌++◌, arith, eq_iff, text_eq}
use goprofile.World.{Header}
use goprofile.Broker.{event_id_key, event_id_from, Producer, message_of}

-- Where the propagator leaves the headers that are there in front of its own, a consumer reads from
-- a message the event id that the producer gave it, if it is not empty.
pub event_id_from-message_of :
    (p : Producer) (topic key event_id body fallback : Bytes) (own : List Header)
    → ((headers : List Header) → p.inject headers ≡ headers ++ own)
    → event_id ≢ []
    → event_id_from (message_of p topic key event_id body).headers fallback ≡ event_id
unfolding event_id_from message_of
event_id_from-message_of p topic key event_id body fallback own appends there = ground (
  arith,
  appends (record { key = event_id_key; value = event_id } ∷ []),
  eq_iff event_id [],
  eq_iff event_id_key event_id_key,
)
