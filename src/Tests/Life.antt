-- ===== src/Tests/Life.antt =====
-- The lives of instances of the serial driver.
use pcie_host_driver.Prelude.{
  ◌+◌, ◌*◌, ◌^◌, ◌≡◌, refl, true, false, none, some, [], ◌∷◌, ◌++◌, ◌==◌, if◌then◌else◌,
}
use pcie_host_driver.Mmio.{Mem, rd_buf}
use pcie_host_driver.Common.Effects.{Run}
use pcie_host_driver.Common.Effects.Ledger.{books}
use pcie_host_driver.Common.Opmode.{app_vpulink, get_opmode}
use pcie_host_driver.Common.Boot.{Chunk, load_image, load_chunks}
use pcie_host_driver.Common.Pci.{PciAnswers, IrqAnswers}
use pcie_host_driver.Common.Reset.{Revived}
use pcie_host_driver.Common.Reset.Sequence.{ResetDone, reset_device-ResetDone}
use pcie_host_driver.Serial.Comms.{Port}
use pcie_host_driver.Serial.Control.{
  CoreAnswers, CoreStatus, events_cleanup, core_init, core_cleanup, is_mode,
}
use pcie_host_driver.Serial.Control.Init.{bare, up, wired_port, Leaves, core_init-Leaves}
use pcie_host_driver.Serial.Control.Down.{cleaned, core_cleanup-books}
use pcie_host_driver.Serial.Admin.{ResetAnswers, BootAnswers, reset_dev, boot_dev, boot_loaded}
use pcie_host_driver.Serial.Admin.Outcomes.{reset_ends, reset_dev-books}
use pcie_host_driver.Serial.Admin.Booted.{boot_dev-stranded}
use pcie_host_driver.Tests.Common.{done_memory, chunk}
use pcie_host_driver.Tests.Comms.{port_of, ready_memory, granted, maps}

abbrev pub silent : Mem
silent a = 0

-- a memory that shows "VPUBOOT"
abbrev pub boot_memory : Mem
boot_memory a =
    if a == 0
    then 86
    else if a == 1
    then 80
    else if a == 2
    then 85
    else if a == 3
    then 66
    else if a == 4
    then 79
    else if a == 5
    then 79
    else if a == 6
    then 84
    else 0

abbrev pub pci_granted : PciAnswers
pci_granted = record {
  enabled = true;
  requested = true;
  mapped = true;
  dma64 = true;
  dma32 = true;
  link_control = 0;
  aspm = 0;
}

abbrev pub irq_granted : Mem → IrqAnswers
irq_granted mmio = record { vectors_ok = true; irq_ok = true; settle = λ m. mmio }

abbrev pub revived : Mem → Revived
revived mmio = record {
  settled = true;
  vend_dev_id = 0x8086 + 0x6200 * 2 ^ 16;
  msi_ctrl = 0;
  mmio = mmio;
}

reset_device_example : ResetDone (revived boot_memory) (up true)
reset_device_example = reset_device-ResetDone (revived boot_memory) (up true)

abbrev core_answers : CoreAnswers
core_answers = record {
  pci = pci_granted;
  irq = irq_granted silent;
  node_ok = true;
  cdev_ok = true;
  grant = granted;
  dma = maps;
  rx_size = 48;
  tx_size = 32;
}

core_init_example :
    Leaves core_answers
      (is_mode app_vpulink (wired_port core_answers 0 (port_of ready_memory)).link.mmio)
      bare
      (core_init core_answers 0 (port_of ready_memory)).0
core_init_example = core_init-Leaves core_answers 0 (port_of ready_memory)

core_cleanup_example :
    books (core_cleanup (port_of silent)).0 (up true) ≡ cleaned (is_mode app_vpulink silent) true
core_cleanup_example = core_cleanup-books (port_of silent) true

abbrev reset_answers : ResetAnswers
reset_answers = record {
  restored = revived boot_memory;
  revived = revived boot_memory;
  irq = irq_granted boot_memory;
}

reset_dev_example :
    let r = reset_dev reset_answers (port_of silent) in
    books r.0 (up true) ≡ reset_ends reset_answers (get_opmode silent) true r.1.1
reset_dev_example = reset_dev-books reset_answers (port_of silent) true

-- no cache for the image
abbrev no_cache : Chunk
no_cache = record {
  cache_ok = false;
  image_ok = false;
  garbled = none;
  transfer = record { start = none; polls = λ m n. silent };
}

abbrev boot_answers : BootAnswers
boot_answers = record {
  fuel = 3;
  polls = 1601;
  env = λ n. no_cache;
  bl_env = λ n. no_cache;
  bl = [];
  irq = irq_granted boot_memory;
  grant = granted;
  dma = maps;
  rx_size = 48;
  tx_size = 32;
}

abbrev not_loaded : Run (Port × CoreStatus)
not_loaded =
    boot_loaded boot_answers (port_of boot_memory) (1 ∷ 2 ∷ [])
      ((events_cleanup (port_of boot_memory)).1.link.mmio, [], false)

load_fails : boot_dev boot_answers (port_of boot_memory) (1 ∷ 2 ∷ []) ≡ some not_loaded
unfolding boot_dev load_image load_chunks get_opmode rd_buf
load_fails = refl

stranded_example : books (not_loaded.0 ++ (core_cleanup (port_of silent)).0) (up false) ≡ none
unfolding boot_loaded
stranded_example =
    boot_dev-stranded boot_answers (port_of boot_memory) (port_of silent) (1 ∷ 2 ∷ []) not_loaded
      load_fails refl

-- an image that is loaded, and a device that shows no mode after it
abbrev boots : BootAnswers
boots = record boot_answers { env = λ n. chunk; irq = irq_granted silent }

abbrev loaded : Run (Port × CoreStatus)
loaded = boot_loaded boots (port_of boot_memory) (1 ∷ 2 ∷ []) (done_memory, [], true)
