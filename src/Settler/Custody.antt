-- ===== src/Settler/Custody.antt =====
-- How programs/batch_settler/src/lib.rs gives back the oTokens that it holds for a maker.
pub mod Accounts
pub mod Redeem
pub mod Physical
pub mod Delivery
pub mod Emergency
pub mod Forward
pub mod Payments
pub mod Delivered
pub mod Taken
pub mod Swapped
pub mod Promise
pub mod Closed
pub mod Escape
pub mod Redeemed
