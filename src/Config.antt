-- ===== src/Config.antt =====
-- internal/config/config.go: the inputs of the action and what they may be.
pub mod Values
pub mod Pairs
pub mod Targets
pub mod Overlaps
pub mod Validate
pub mod Load
