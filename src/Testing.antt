-- ===== src/Testing.antt =====
-- A concrete token program and runtime, and the tests and instances that run on them.
pub mod Bank
pub mod BankLaws
pub mod World
pub mod Scenario
pub mod Desk
mod Controller
mod Amounts
mod Oracle
mod Layout
mod Settler
mod Signatures
mod Listing
mod Orders
mod Redemptions
mod Escape
mod Paired
mod Books
