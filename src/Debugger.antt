-- ===== src/Debugger.antt =====
-- The debugger, src/ijdb.c: the state that it keeps beside the machine, and its commands.
mod State
mod Sequence
mod Labels
mod History
mod Session
mod Commands
mod Prompt
pub mod Calls
pub mod Store
pub mod Record
pub mod Backtrace
pub mod Moves
pub mod Recording
pub mod Running
pub mod Fresh
pub mod Restart
pub mod Dangling
pub mod Idle
pub mod Parts
pub mod Names
pub mod Trace
pub mod Follow
pub mod Loop
pub mod Breakpoints
pub use State.*
unfoldable pub use Sequence.*
unfoldable pub use Labels.*
unfoldable pub use History.*
unfoldable pub use Session.*
unfoldable pub use Commands.*
unfoldable pub use Prompt.*
