-- ===== src/Handlers.antt =====
-- internal/handlers
pub mod Errors
pub mod Avatars
pub mod Web
pub mod Health
