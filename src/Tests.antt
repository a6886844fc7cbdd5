-- ===== src/Tests.antt =====
-- Concrete runs: the data that they share, and one run for each theorem that has hypotheses.
pub mod Service
pub mod Worker
pub mod Domain
pub mod Tables
pub mod Lookups
pub mod Processing
pub mod Requests
pub mod Outbox
pub mod Config
pub mod Migrate
pub mod Router
pub mod Run
pub mod Programs
use goprofile.Prelude.{◌+◌, ◌^◌, ◌*◌, ℕ, Bytes, text, List, [], ◌∷◌, ◌++◌, Option, none, some}
use goprofile.Prelude.Int.{ℤ, pos}
use goprofile.Result.{Result, ok, err}
use goprofile.Domain.Errors.{external}
use goprofile.Domain.Avatar.{Uuid, Avatar, JsonMap, stored, completed}
use goprofile.Image.{Codec}
use goprofile.Services.Deps.{Library}
use goprofile.World.{World, Row, OutboxRow, Db}
use goprofile.Broker.{Producer}
use goprofile.App.{Setup}

abbrev pub test_codec : Codec Bytes
test_codec = record {
  decode_config = λ bytes. some (pos 2, pos 2);
  decode_image = λ bytes. some bytes;
  fill = λ image w h. image;
  encode_jpeg = λ image. ok image;
  encode_png = λ image. ok image;
  encode_webp = λ image. ok image;
}

abbrev parse_digit : Bytes → Result Uuid
parse_digit (b ∷ []) = ok b
parse_digit _ = err (external 9)

abbrev pub test_library : Library Bytes
test_library = record {
  codec = test_codec;
  uuid_string = λ id. id ∷ [];
  uuid_parse = parse_digit;
  marshal_upload = λ e. ok e.event_id;
  unmarshal_upload = λ bytes.
      ok (record {
        event_id = bytes;
        avatar_id = text "3";
        user_id = text "ann";
        s3_key = text "k";
      });
  marshal_delete = λ e. ok e.event_id;
  unmarshal_delete = λ bytes. ok (record { event_id = bytes; avatar_id = text "3"; s3_keys = [] });
  sha256 = λ bytes. bytes;
}

abbrev pub test_setup : Setup Bytes
test_setup = record {
  json = record { marshal = λ m. none; unmarshal = λ bytes. none };
  library = test_library;
  detect_content_type = λ bytes. text "application/octet-stream";
  producer = record { topic_upload = text "up"; topic_delete = text "down"; inject = λ h. h };
  public_url = text "http://localhost/";
  max_bytes = pos 0;
}

abbrev pub test_row : Uuid → Bytes → Row
test_row id user_id = record {
  avatar = record {
    id = id;
    user_id = user_id;
    file_name = text "me.jpg";
    mime_type = text "image/jpeg";
    size_bytes = 12;
    width = pos 2;
    height = pos 2;
    s3_key = text "k";
    thumbnail_s3_keys = none;
    upload_status = stored;
    processing_status = completed;
    created_at = 5;
    updated_at = 5;
    deleted_at = none;
  };
  thumbnails = some (text "{}");
}

abbrev pub test_world : List Row → List OutboxRow → World
test_world rows outbox = record {
  db = record { avatars = rows; outbox = outbox; next_outbox_id = 7 };
  objects = [];
  topics = [];
  now = 100;
  uuids = λ n. n + 40;
  drawn = 0;
  turns = [];
  metrics = [];
}

-- Twelve bytes with the signature of a JPEG.
abbrev pub photo : Bytes
photo = 0xFF ∷ 0xD8 ∷ 0xFF ∷ text "123456789"
