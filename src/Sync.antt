-- ===== src/Sync.antt =====
-- The package sync.
pub mod Limiter
