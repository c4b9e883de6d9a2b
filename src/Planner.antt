-- ===== src/Planner.antt =====
-- internal/uploader/planner.go: the local side of an upload pair becomes a list of transfers.
pub mod Tree
pub mod Walk
pub mod Build
