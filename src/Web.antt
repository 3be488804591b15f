-- ===== src/Web.antt =====
-- internal/web: the gateway's own state, its files, its limits and its sessions.
pub mod PrivateFile
pub mod NodeLayout
pub mod Attempts
pub mod Requests
pub mod Passwords
pub mod Users
