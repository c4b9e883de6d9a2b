-- ===== src/HostKeys.antt =====
-- internal/uploader/hostkeys.go: which host keys a connection accepts.
pub mod Fingerprint
pub mod Policy
pub mod Algorithms
