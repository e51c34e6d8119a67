-- ===== src/Renter.antt =====
-- The renter's own logic: modules/renter.
pub mod Memory
pub mod HostTree
pub mod Examples
