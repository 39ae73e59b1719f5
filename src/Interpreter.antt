-- ===== src/Interpreter.antt =====
-- src/interpreter.c: one instruction at a time, until the machine has finished. The instructions
-- stand in the child modules; `Args` reads what follows an instruction in code memory.
mod Args
mod Compute
mod Control
mod Extend
pub mod Fetch
pub mod Kept
pub mod Sound
pub mod Words
pub mod FrameWords
pub mod HostWords
pub mod Operands
pub mod Jumps
pub mod Variables
pub mod Frames
pub mod Calls
pub mod Returns
unfoldable pub use Args.*
unfoldable pub use Compute.*
unfoldable pub use Control.*
unfoldable pub use Extend.*
