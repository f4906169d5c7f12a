-- ===== src/Pool.antt =====
-- programs/margin_pool/src/lib.rs: its accounts, its instructions, and the backing of its deposits.
pub mod State
pub mod Admin
pub mod Transfers
pub mod Backed
