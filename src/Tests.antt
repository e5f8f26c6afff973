-- ===== src/Tests.antt =====
-- Concrete inputs on which the theorems hold.
mod Ring
mod Lists
mod Driver
mod Serial
mod Common
mod Comms
mod Life
mod Instances
