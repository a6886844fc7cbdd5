-- ===== src/App.antt =====
-- internal/app/deps.go: the service on the repository, the bucket and the producer.
pub mod Uploads
pub mod Deletions
pub mod Processing
pub mod Lookups
pub mod Completion
pub mod Quiet
pub mod Moves
pub mod Requests
pub mod Announced
pub mod Delivered
pub mod Lifecycle
pub mod Calm
pub mod Processed
use goprofile.Prelude.{Bytes}
use goprofile.Prelude.Int.{ℤ}
use goprofile.Domain.Avatar.{JsonMap}
use goprofile.Services.Deps.{Library, AvatarService, new_avatar_service}
use goprofile.World.{World, real_runtime}
use goprofile.Repository.Queries.{avatar_repository}
use goprofile.Storage.{bucket_store}
use goprofile.Broker.{Producer, kafka_publisher}

-- The part of the configuration that the service sees, and the libraries.
pub record Setup (Image : Type 0) : Type 0 where
  pub json : JsonMap
  pub library : Library Image
  pub detect_content_type : Bytes → Bytes
  pub producer : Producer
  pub public_url : Bytes
  pub max_bytes : ℤ

module _ {Image : Type 0} (setup : Setup Image) where
  open setup use {json, library, detect_content_type, producer, public_url, max_bytes}

  unfoldable pub new_service : AvatarService World Image
  new_service =
      new_avatar_service (avatar_repository json) (bucket_store detect_content_type)
        (kafka_publisher library producer) public_url max_bytes real_runtime library
