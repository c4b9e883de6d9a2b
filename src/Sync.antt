-- ===== src/Sync.antt =====
-- The sync strategy of internal/uploader/sync.go.
pub mod Store
pub mod Manifest
pub mod Select
pub mod Collide
pub mod Session
pub mod Clear
pub mod Execute
