-- ===== src/Serial/Control/Down.antt =====
-- serial/mxlk/mxlk_core.c: what `mxlk_core_cleanup` gives up.
use pcie_host_driver.Prelude.{
  ◌≡◌, refl, Bool, true, false, Option, none, some, ◌++◌, inl, inr, Bool-cases,
}
use pcie_host_driver.Common.Effects.{Held}
use pcie_host_driver.Common.Effects.Ledger.{books}
use pcie_host_driver.Common.Opmode.{app_vpulink}
use pcie_host_driver.Serial.Comms.{Port, comms_cleanup}
use pcie_host_driver.Serial.Control.{events_cleanup, take_down, core_cleanup, is_mode}
use pcie_host_driver.Serial.Control.Init.{bare, up}

-- What a clean-up leaves held when the device shows the application's mode or not, and the
-- communications are started or not; `none` for a release of what is not held.
abbrev pub cleaned : Bool → Bool → Option Held
cleaned true true = some bare
cleaned true false = none
cleaned false running = some (record bare { streams = running; debug_file = running })

pub core_cleanup-app :
    (p : Port)
    → is_mode app_vpulink p.link.mmio ≡ true
    → (core_cleanup p).0 ≡ (comms_cleanup p).0 ++ (take_down (comms_cleanup p).1.0).0
unfolding core_cleanup
core_cleanup-app p m = rw m refl

pub core_cleanup-other :
    (p : Port) → is_mode app_vpulink p.link.mmio ≡ false → (core_cleanup p).0 ≡ (take_down p).0
unfolding core_cleanup
core_cleanup-other p m = rw m refl

-- The clean-up asks the device whether communications are to be stopped: it gives up exactly what is
-- held when the answer fits, loses the rings and the debug file when the device no longer shows the
-- application's mode, and releases what is not held when it shows that mode without communications.
pub core_cleanup-books :
    (p : Port) (running : Bool)
    → books (core_cleanup p).0 (up running) ≡ cleaned (is_mode app_vpulink p.link.mmio) running
unfolding books comms_cleanup take_down events_cleanup
core_cleanup-books p running = elim (Bool-cases (is_mode app_vpulink p.link.mmio)) [
  | inr m ↦ rw (m, core_cleanup-other p m) refl
  | inl m ↦ rw (m, core_cleanup-app p m) (stop running)
]
  where
    stop :
        (b : Bool)
        → books ((comms_cleanup p).0 ++ (take_down (comms_cleanup p).1.0).0) (up b) ≡ cleaned true b
    stop true = refl
    stop false = refl
