-- ===== src/Examples.antt =====
-- Programs of src/examples over the model, their output left out. A process's guards and timeouts
-- stand at its local variables' address in the maps of their kinds; its plain variables are bytes.
pub mod Comm
pub mod Words
pub mod Commstime
pub mod Procon
pub mod TwoChannels
pub mod Timeouts
pub mod UserInterrupts
pub mod Empty
pub mod Timing
pub mod Rings
pub mod Guards
