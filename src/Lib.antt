-- ===== src/Lib.antt =====
-- Verification of the options protocol's Solana programs.
--
-- The programs: `controller` holds vaults of collateral against which oTokens are minted, and settles
-- and redeems them after expiry; `oracle` fixes the expiry prices that it reads; `otoken_factory` and
-- `whitelist` keep the series that it lists; `batch_settler` executes signed quotes on top of it, and
-- holds the makers' oTokens until they are redeemed or delivered; `margin_pool` is a pool of its own.
--
-- Common: helpers on numbers, signed integers, lists, bytes and results; the programs' error enums;
--   the account map (`Accounts`, by address); fixed-width words with their checked operations.
-- Runtime: what the programs take from Solana. The derivation of program addresses and the clock are
--   fields of `Runtime`; the token programs are a record `TokenProgram` over a ledger of any type, and
--   the system program one `SystemProgram` over the same ledger. They are parameters of the operations
--   that use them. `TransferLaws` states what the theorems on money use of the token program, and
--   Testing/Bank has a concrete one.
-- Controller: programs/controller/src/lib.rs. State has the accounts, Collateral the arithmetic of
--   `get_required_collateral` and `get_payout`, and Admin, Vaults, Mint, Settle, Redeem and Series one
--   function per instruction. An accounts struct is a record of addresses, and its constraints are a
--   `load_` function that gives the accounts loaded or the error. Machine runs histories of
--   transactions, a failed one leaving the state as it was; Moves is the step relation that the
--   theorems on histories go by.
-- Factory, Whitelist: programs/otoken_factory/src/lib.rs, with its histories in Machine, and
--   programs/whitelist/src/lib.rs. The token program's `initialize_mint` is a parameter of
--   `create_otoken`.
-- Oracle: programs/oracle/src/lib.rs. Pyth parses the bytes of a price account, Checks has the tests on
--   a price and `normalize_to_8_decimals`, Admin and Prices the instructions, and Machine their
--   histories. Layout writes out the account that the comment on the parser describes.
-- Settler: of programs/batch_settler/src/lib.rs, Quotes has the arithmetic and the tests of a quote,
--   Signature its message and the search for its signature among the transaction's instructions, Admin
--   the instructions on the configuration, the makers and the cancelling of quotes, and Rent what the
--   sponsored reserve pays. Order is `execute_order`: Load its accounts and tests, Steps the parts that
--   write, Execute the whole. Custody has `redeem_for_mm` and `mm_self_redeem` (Redeem),
--   `physical_redeem` (Physical up to the swap, Delivery from the redemption on), `settle_vault` and
--   `emergency_withdraw` (Emergency). These run on a `World`: the settler's accounts, the controller's,
--   and the ledger; Custody/Escape has the accounts and the payout of `mm_self_redeem`, and
--   Verification the layout of a call of the ed25519 program. A cross-program call of the controller is
--   the Controller function on the same runtime. The swap is an `ExternalProgram`, of which nothing is
--   assumed. Machine runs histories of all instructions on the settler's accounts, each against a
--   controller and a ledger of its own.
-- Pool: programs/margin_pool/src/lib.rs, with its admin instructions and its two transfers.
-- Jupiter: programs/mock_jupiter/src/lib.rs, the swap program of the tests, over the token program's
--   plain transfer.
-- Testing: a concrete bank and runtime, a history that opens, writes, expires, redeems and settles, an
--   order of the settler with its delivery, redemption and emergency, and the theorems at these and at
--   concrete prices and quotes.
--
-- An account's address is a number, as its 32 bytes are. A u64 or u128 is a natural number whose
-- bound is tested where the source tests it; an i64 is an integer. No definition takes fuel: the
-- programs have no loops but over lists. An arithmetic overflow that the source does not check is the
-- error `panic`, since the workspace is built with overflow checks.
--
-- Not modelled: events, account space and the rent that Anchor charges, the order of failing constraints
-- among themselves, account ownership and discriminators but of the Pyth account (an address that holds
-- no account of the right program and type is vacant, and a vacant address of the program has no data),
-- the account lists and the dispatch of cross-program calls, a call back into the settler from the swap,
-- which the runtime refuses, what the ed25519 program verifies in the calls whose data the settler
-- reads, and the deployment scripts.
pub mod Common
pub mod Runtime
pub mod Factory
pub mod Whitelist
pub mod Oracle
pub mod Controller
pub mod Settler
pub mod Pool
pub mod Jupiter
pub mod Testing
