-- ===== src/Controller.antt =====
-- programs/controller/src/lib.rs: vaults, oToken minting, settlement and redemption.
pub mod State
pub mod Collateral
pub mod Admin
pub mod Vaults
pub mod Mint
pub mod Settle
pub mod Redeem
pub mod Series
pub mod Moves
pub mod Machine
pub mod Backing
pub mod Lifecycle
pub mod Settlement
pub mod Guards
