-- ===== src/Testing/Desk.antt =====
-- The settler at work on the concrete token program: its keys, its accounts, and one order.
mod Accounts
mod Placed
unfoldable pub use Accounts.*
unfoldable pub use Placed.*
