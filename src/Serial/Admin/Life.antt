-- ===== src/Serial/Admin/Life.antt =====
-- serial/mxlk/mxlk_main.c: the life of an instance from its probe to its removal.
use pcie_host_driver.Prelude.{
  ℕ, ◌≡◌, refl, ◌∙◌, Bool, true, false, Option, some, [], ◌∷◌, ◌++◌, if◌then◌else◌,
}
use pcie_host_driver.Common.Effects.{Held, nothing, release, instance_memory}
use pcie_host_driver.Common.Effects.Ledger.{books, books-append}
use pcie_host_driver.Common.Opmode.{app_vpulink}
use pcie_host_driver.Serial.Comms.{Port, comms_ok, comms_eio, comms_error, comms_trap}
use pcie_host_driver.Serial.Control.{
  CoreAnswers, CoreStatus, core_ok, core_eperm, core_pci, core_events, core_eio, core_load,
  core_chrdev, core_comms, core_init, is_mode,
}
use pcie_host_driver.Serial.Control.Init.{bare, left, wired_port, core_init-Leaves}
use pcie_host_driver.Serial.Control.Down.{cleaned}
use pcie_host_driver.Serial.Admin.{keeps_memory, probe}

-- what is left when a probe has ended: its structure only when it succeeds or traps
abbrev pub probe_left : CoreAnswers → Bool → CoreStatus → Held
probe_left a running s = record (left a running s) { instance_memory = keeps_memory s }

freed :
    (a : CoreAnswers) (running : Bool) (s : CoreStatus)
    → books ((if keeps_memory s then [] else release instance_memory ∷ []) ++ []) (left a running s)
      ≡ some (probe_left a running s)
unfolding books
freed a running core_ok = refl
freed a running core_eperm = refl
freed a running core_pci = refl
freed a running core_events = refl
freed a running core_eio = refl
freed a running core_load = refl
freed a running (core_chrdev s) = refl
freed a running (core_comms comms_ok) = refl
freed a running (core_comms comms_eio) = refl
freed a running (core_comms comms_error) = refl
freed a running (core_comms comms_trap) = refl

-- A probe that returns an error frees its structure, and leaves nothing held but the mapping where both DMA masks
-- are refused and the vectors where the interrupt's handler is refused; one that succeeds leaves all
-- held.
pub probe-books :
    (a : CoreAnswers) (units : ℕ) (p : Port)
    → let running = is_mode app_vpulink (wired_port a units p).link.mmio in
      books (probe true a units p).0.0 nothing
      ≡ some (probe_left a running (core_init a units p).0.1.1)
unfolding books probe
probe-books a units p =
    let run = (core_init a units p).0 in
    let running = is_mode app_vpulink (wired_port a units p).link.mmio in
    books-append run.0 ((if keeps_memory run.1.1 then [] else release instance_memory ∷ []) ++ [])
      bare (left a running run.1.1) (core_init-Leaves a units p)
    ∙ freed a running run.1.1

pub removed : (b : Bool) (h : Option Held) → h ≡ cleaned b b → h ≡ some bare
removed true h e = e
removed false h e = e
