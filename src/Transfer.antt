-- ===== src/Transfer.antt =====
-- internal/uploader/transfer.go: how a file is put in place on the server, and what is cleaned up.
pub mod Temp
pub mod Replace
pub mod Sweep
pub mod Upload
