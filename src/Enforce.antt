-- ===== src/Enforce.antt =====
-- internal/enforce/enforce.go: which process may use a GPU, and which one is terminated.
pub mod Scope
pub mod Kills
pub mod Decide
pub mod Soft
pub mod Run
pub mod Evict
pub mod Entitlement
