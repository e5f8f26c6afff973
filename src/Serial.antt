-- ===== src/Serial.antt =====
-- serial/mxlk: the serial driver, which moves bytes between files and the device's rings.
pub mod Buffers
pub mod Caps
pub mod Stream
pub mod Ring
pub mod Setup
pub mod Comms
pub mod Control
pub mod Admin
pub mod Module
pub mod Transmit
