-- ===== src/Common.antt =====
-- common: what the three drivers share: the mode that the device is in, and loading an image into it.
pub mod Effects
pub mod Opmode
pub mod Boot
pub mod Pci
pub mod Reset
