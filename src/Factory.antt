-- ===== src/Factory.antt =====
-- programs/otoken_factory/src/lib.rs
pub mod State
pub mod Series
pub mod Machine
pub mod Placement
