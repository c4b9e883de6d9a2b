-- ===== src/Session.antt =====
-- internal/uploader/session.go: the connections of a run, and how an operation outlives a lost one.
pub mod Do
pub mod Pool
pub mod Backoff
pub mod Stall
