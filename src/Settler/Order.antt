-- ===== src/Settler/Order.antt =====
-- `execute_order` of programs/batch_settler/src/lib.rs.
pub mod Load
pub mod Steps
pub mod Execute
pub mod Ran
pub mod Loaded
pub mod Terms
pub mod Credits
pub mod Agreement
pub mod Vault
