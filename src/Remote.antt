-- ===== src/Remote.antt =====
-- internal/uploader/remote.go: the guards on remote paths and on deletions.
pub mod Guard
pub mod Confine
pub mod Budget
pub mod Dirs
pub mod Delete
pub mod Create
pub mod Listing
