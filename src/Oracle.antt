-- ===== src/Oracle.antt =====
-- programs/oracle/src/lib.rs: its accounts, the parsing and testing of prices, and its instructions.
pub mod State
pub mod Pyth
pub mod Checks
pub mod Admin
pub mod Prices
pub mod Normalize
pub mod Deviation
pub mod Machine
pub mod Finality
pub mod Layout
