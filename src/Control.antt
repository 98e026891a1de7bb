-- ===== src/Control.antt =====
-- The owner's control plane (internal/relay/control_plane.go).
pub mod Sanitize
pub mod State
pub mod Disk
pub mod Tokens
pub mod Devices
pub mod Register
pub mod Load
