-- ===== src/Tests.antt =====
-- Runs of the definitions at concrete inputs, and each result at one of them.
pub mod Angles
pub mod Host
pub mod Listeners
pub mod Posix
pub mod Processor
pub mod Timers
pub mod Registry
pub mod Robot
pub mod Steering
pub mod Threads
pub mod Motors
pub mod Devices
pub mod Modes
mod Regulation
