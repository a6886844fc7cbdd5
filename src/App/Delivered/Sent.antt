-- ===== src/App/Delivered/Sent.antt =====
-- What a flush has sent where every call works.
use goprofile.Prelude.{ℕ, ◌≡◌, List, some, text_eq}
use goprofile.Domain.Events.{upload_event_id, delete_event_id}
use goprofile.World.{World, Message, Row}
use goprofile.App.{Setup}
use goprofile.App.Delivered.{HasMessage}
use goprofile.App.Delivered.Served.{Faithful}

module _ {Image : Type 0} (setup : Setup Image) (faithful : Faithful setup) where
  open setup use {library}

  -- The message of the avatar's upload is in the topics, and that of its deletion, if it is deleted.
  abbrev pub IsSentRow : List Message → Row → Type 0
  IsSentRow topics r =
      HasMessage (upload_event_id (library.uuid_string r.id)) topics
      × ((t : ℕ)
          → r.deleted_at ≡ some t
          → HasMessage (delete_event_id (library.uuid_string r.id)) topics)
