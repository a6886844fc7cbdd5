-- ===== src/App/Delivered.antt =====
-- The outbox and the topics: what is marked as published was sent.
pub mod Writes
pub mod Items
pub mod Flush
pub mod Served
pub mod Among
pub mod Drained
pub mod Sent
use goprofile.Prelude.{
  ℕ, ◌≡◌, ◌≢◌, refl, ◌∙◌, sym, ap, Bytes, List, [], ◌∷◌, ◌++◌, some, All, All-map,
}
use mathlib.Core.List.{append_assoc}
use mathlib.Core.Path.{subst}
use goprofile.Domain.Avatar.{OutboxEvent, Kind, outbox_upload, outbox_delete, other_kind}
use goprofile.Domain.Events.{AvatarUploadEvent, AvatarDeleteEvent}
use goprofile.Result.{ok}
use goprofile.Services.Deps.{Library}
use goprofile.World.{World, Message, OutboxRow}
use goprofile.Repository.Invariant.{IsConsistent}
use goprofile.Broker.{event_id_from}
use goprofile.App.Quiet.{Quiet}

-- A message of the event is in the topics: a consumer reads the event id from its headers.
abbrev pub HasMessage : Bytes → List Message → Type 0
HasMessage event_id topics =
    (m : Message) × (before : List Message) × (after : List Message) × (topics
      ≡ before ++ m ∷ after)
    × (event_id_from m.headers [] ≡ event_id)

grown-HasMessage :
    (event_id : Bytes) (topics more : List Message)
    → HasMessage event_id topics
    → HasMessage event_id (topics ++ more)
grown-HasMessage event_id topics more (m, before, after, there, id) =
    (m, before, after ++ more, ap (λ t. t ++ more) there ∙ append_assoc before (m ∷ after) more, id)

module _ {Image : Type 0} (library : Library Image) where
  -- The payload is read as an event with the id, if it can be read.
  abbrev pub DecodesTo : Kind → Bytes → Bytes → Type 0
  DecodesTo outbox_upload payload event_id =
      (e : AvatarUploadEvent) → library.unmarshal_upload payload ≡ ok e → e.event_id ≡ event_id
  DecodesTo outbox_delete payload event_id =
      (e : AvatarDeleteEvent) → library.unmarshal_delete payload ≡ ok e → e.event_id ≡ event_id
  DecodesTo (other_kind kind) payload event_id = Unit

  -- The payload of an event has its id, which is not empty.
  abbrev pub IsWhole : Kind → Bytes → Bytes → Type 0
  IsWhole kind payload event_id = DecodesTo kind payload event_id × (event_id ≢ [])

  abbrev pub IsDeliveredRow : List Message → OutboxRow → Type 0
  IsDeliveredRow topics o =
      IsWhole o.kind o.payload o.event_id
      × ((t : ℕ) → o.published_at ≡ some t → HasMessage o.event_id topics)

  -- The tables are consistent, and each outbox row is whole and, if it is published, sent.
  abbrev pub IsDelivered : World → Type 0
  IsDelivered w = IsConsistent w.db × All (IsDeliveredRow w.topics) w.db.outbox

  grown-IsDeliveredRow :
      (topics more : List Message) (o : OutboxRow)
      → IsDeliveredRow topics o
      → IsDeliveredRow (topics ++ more) o
  grown-IsDeliveredRow topics more o (whole, sent) =
      (whole, λ t h. grown-HasMessage o.event_id topics more (sent t h))

  pub Quiet-IsDelivered : (w w' : World) → Quiet w w' → IsDelivered w → IsDelivered w'
  Quiet-IsDelivered w w' (same, (more, topics)) (c, sent) = (
    subst IsConsistent (sym same) c,
    subst (λ d. All (IsDeliveredRow w'.topics) d.outbox) (sym same)
        (subst (λ t. All (IsDeliveredRow t) w.db.outbox) (sym topics)
          (All-map w.db.outbox (grown-IsDeliveredRow w.topics more) sent)),
  )
