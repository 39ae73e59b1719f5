-- ===== src/Machine.antt =====
-- The machine's global state and the commands over it.
mod State
mod Command
mod Outcome
pub mod Stays
pub mod Words
pub use State.*
unfoldable pub use Command.*
pub use Outcome.*
