-- ===== src/Runtime.antt =====
-- What the programs use of the Solana runtime, of Anchor's account loading and of the SPL token
-- and system programs. None of it is code of the repository: the runtime and these programs are parameters.
mod Address
mod Token
mod Load
mod System
mod Loaded
unfoldable pub use Address.*
unfoldable pub use Token.*
unfoldable pub use Load.*
unfoldable pub use System.*
pub use Loaded.*
