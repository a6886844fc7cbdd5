-- ===== src/Domain.antt =====
-- internal/domain: the avatar, its statuses, the error values, the events and the validators.
pub mod Errors
pub mod Avatar
pub mod Events
pub mod Validate
