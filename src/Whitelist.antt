-- ===== src/Whitelist.antt =====
-- programs/whitelist/src/lib.rs
pub mod State
pub mod Entries
pub mod Authority
