-- ===== src/Services.antt =====
-- internal/services: the avatar service, over the interfaces of deps.go.
pub mod Moves
pub mod Deps
pub mod FileName
pub mod Upload
pub mod Outbox
pub mod Delete
pub mod Fetch
pub mod Process
