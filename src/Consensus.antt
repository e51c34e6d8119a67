-- ===== src/Consensus.antt =====
-- The package modules/consensus.
pub mod State
pub mod Weight
pub mod BlockValidation
pub mod Difficulty
pub mod Store
pub mod Diffs
pub mod Apply
pub mod Maintenance
pub mod Valid
pub mod Generate
pub mod Undo
pub mod Fork
pub mod ChangeLog
pub mod Accept
pub mod BlockExamples
pub mod Examples
pub mod Coins
