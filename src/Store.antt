-- ===== src/Store.antt =====
-- internal/store/store.go: the node's persisted state and every operation on it.
pub mod Errors
pub mod Bounds
pub mod Persist
pub mod Validity
pub mod RootKey
pub mod Exclusive
pub mod Tokens
pub mod Reserve
pub mod Rows
pub mod Revoke
pub mod Prune
pub mod Sync
pub mod Views
pub mod History
