-- ===== src/HardwareLink.antt =====
-- The devices of src/HardwareLink but for the motors.
pub mod Piston
pub mod Lights
pub mod Encoders
