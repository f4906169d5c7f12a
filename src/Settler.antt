-- ===== src/Settler.antt =====
-- programs/batch_settler/src/lib.rs: its accounts, the terms and the signature of a quote, and its
-- administration.
pub mod State
pub mod Quotes
pub mod Signature
pub mod Premium
pub mod Fills
pub mod Binding
pub mod Exercise
pub mod Verification
pub mod Admin
pub mod Limits
pub mod World
pub mod Rent
pub mod Order
pub mod Custody
pub mod Machine
