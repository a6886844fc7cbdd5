-- ===== src/Services/Deps.antt =====
-- internal/services/deps.go, the service's own record, and what it takes from its surroundings:
-- the clock, random identifiers, JSON, SHA-256, the image codecs and the metrics.
use goprofile.Prelude.{ℕ, Bool, Bytes, List, Option, if◌then◌else◌}
use goprofile.Prelude.Int.{ℤ, pos, leb_ℤ}
use goprofile.Text.{trim_right}
use goprofile.Result.{Result, ok, err, Exec}
use goprofile.Domain.Avatar.{Uuid, Avatar, OutboxEvent, KeyMap, max_file_size}
use goprofile.Domain.Events.{AvatarUploadEvent, AvatarDeleteEvent}
use goprofile.Image.{Codec}

pub record AvatarStore (S : Type 0) : Type 0 where
  pub create_with_outbox : Avatar → OutboxEvent → Exec S ℕ
  pub get_by_id : Uuid → Exec S Avatar
  pub get_latest_by_user_id : Bytes → Exec S Avatar
  pub list_by_user_id : Bytes → Exec S (List Avatar)
  pub soft_delete_owned_with_outbox : Uuid → Bytes → OutboxEvent → Exec S (Avatar × ℕ)
  pub mark_processing : Uuid → Exec S Bool
  pub complete_processing : Uuid → Option KeyMap → ℤ → ℤ → Exec S (Unit {0})
  pub fail_processing : Uuid → Exec S (Unit {0})
  pub list_unpublished : ℤ → Exec S (List OutboxEvent)
  pub mark_outbox_published : ℕ → Exec S (Unit {0})
  pub list_stuck_uploads : ℤ → Exec S (List Avatar)

pub record ObjectStore (S : Type 0) : Type 0 where
  pub upload : Bytes → Bytes → Bytes → Exec S (Unit {0})
  pub download : Bytes → Exec S (Bytes × Bytes)
  pub delete : List Bytes → Exec S (Unit {0})

pub record EventPublisher (S : Type 0) : Type 0 where
  pub publish_upload : AvatarUploadEvent → Exec S (Unit {0})
  pub publish_delete : AvatarDeleteEvent → Exec S (Unit {0})

pub data Status : Type 0 where
  status_ok status_error : Status

-- One call on a metric of internal/observability/metrics.go.
pub data Observation : Type 0 where
  uploads_total deletes_total : Status → Observation
  upload_duration : Status → ℕ → Observation
  processed_total : Bytes → Status → Observation
  storage_add storage_sub outbox_unpublished : ℕ → Observation
  -- operation, topic, status
  kafka_messages : Bytes → Bytes → Status → Observation

-- observability.StatusOK
abbrev pub status_of {ℓ} : {A : Type ℓ} → Result A → Status
status_of (ok _) = status_ok
status_of (err _) = status_error

pub record Runtime (S : Type 0) : Type 0 where
  -- time.Now, in nanoseconds
  pub clock : S → ℕ
  -- uuid.New
  pub new_uuid : S → Uuid × S
  -- `select` on the context and time.After: the context's error, or the wait is over
  pub wait : ℕ → Exec S (Unit {0})
  pub observe : Observation → S → S

pub record Library (Image : Type 0) : Type 0 where
  pub codec : Codec Image
  -- `id.String()` and `uuid.Parse`
  pub uuid_string : Uuid → Bytes
  pub uuid_parse : Bytes → Result Uuid
  -- json.Marshal and json.Unmarshal at the two events
  pub marshal_upload : AvatarUploadEvent → Result Bytes
  pub unmarshal_upload : Bytes → Result AvatarUploadEvent
  pub marshal_delete : AvatarDeleteEvent → Result Bytes
  pub unmarshal_delete : Bytes → Result AvatarDeleteEvent
  -- sha256.Sum256
  pub sha256 : Bytes → Bytes

pub record AvatarService (S Image : Type 0) : Type 0 where
  pub repo : AvatarStore S
  pub objects : ObjectStore S
  pub publisher : EventPublisher S
  pub public_base : Bytes
  pub max_bytes : ℤ
  -- the surroundings, which Go reaches by package names
  pub runtime : Runtime S
  pub library : Library Image

-- The limit on a file's size: a limit that is not positive stands for the default.
unfoldable pub effective_max : ℤ → ℤ
effective_max max_bytes = if leb_ℤ max_bytes (pos 0) then pos max_file_size else max_bytes

module _ {S Image : Type 0} where
  unfoldable pub new_avatar_service :
      AvatarStore S
      → ObjectStore S
      → EventPublisher S
      → Bytes
      → ℤ
      → Runtime S
      → Library Image
      → AvatarService S Image
  unfolding effective_max
  new_avatar_service repo objects publisher public_url max_bytes runtime library = record {
    repo = repo;
    objects = objects;
    publisher = publisher;
    public_base = trim_right public_url b'/';
    max_bytes = effective_max max_bytes;
    runtime = runtime;
    library = library;
  }
