-- ===== src/Motor.antt =====
-- src/HardwareLink/Motor: a motor with its speed controller.
pub mod Control
pub mod Link
pub mod Direction
pub mod Starts
pub mod Regulation
