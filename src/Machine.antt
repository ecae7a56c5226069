-- ===== src/Machine.antt =====
-- The state that src/memory.c, src/timer.c, src/sched.c and src/hardware.c keep between calls, with
-- the records of src/internals/*.h and src/sched.c that live in memory, and the commands over it.
pub mod Chain
mod Types
mod Commands
pub use Types.*
pub use Commands.*
