-- ===== src/Domain/Events.antt =====
-- internal/domain/events.go
use goprofile.Prelude.{Bytes, text, List, ◌++◌}

pub record AvatarUploadEvent : Type 0 where
  pub event_id : Bytes
  pub avatar_id : Bytes
  pub user_id : Bytes
  pub s3_key : Bytes

pub record AvatarDeleteEvent : Type 0 where
  pub event_id : Bytes
  pub avatar_id : Bytes
  pub s3_keys : List Bytes

unfoldable pub upload_event_id : Bytes → Bytes
upload_event_id avatar_id = text "upload:" ++ avatar_id

unfoldable pub delete_event_id : Bytes → Bytes
delete_event_id avatar_id = text "delete:" ++ avatar_id
