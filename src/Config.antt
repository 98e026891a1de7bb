-- ===== src/Config.antt =====
-- The configuration (internal/config/config.go).
pub mod Tokens
pub mod Validation
pub mod Net
pub mod Endpoints
pub mod Options
pub mod Accepted
pub mod Routes
pub mod Order
pub mod Public
