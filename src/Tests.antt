-- ===== src/Tests.antt =====
-- Runs of the definitions on concrete inputs, and the theorems at such inputs.
mod Remote
mod Gitignore
mod Planner
mod Sync
mod Uploader
mod Transfer
mod Session
mod HostKeys
mod Config
