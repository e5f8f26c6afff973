-- ===== src/Serial/Control.antt =====
-- serial/mxlk/mxlk_core.c, mxlk_char.c and mxlk_main.c: bringing the serial driver up and down,
-- resetting and booting the device, the interrupt and the ioctl. The transfer lock is not modelled.
pub mod Init
pub mod Down
use pcie_host_driver.Prelude.{
  ℕ, ◌+◌, ◌^◌, Bool, true, false, not, Option, none, some, List, [], ◌∷◌, ◌++◌, map, ltb,
  if◌then◌else◌, length,
}
use pcie_host_driver.Mmio.{Mem, Bytes, wr32}
use pcie_host_driver.Common.Effects.{
  Act, acquire, release, instance_memory, char_device, write_config, queue_job, cancel_job,
  rx_event, tx_event, send_doorbell, Run, ◌>>=◌, ◌>>◌, does, return,
}
use pcie_host_driver.Common.Opmode.{
  Opmode, unknown, boot, loader, app_vpual, app_vpulink, get_opmode, same_mode,
}
use pcie_host_driver.Common.Boot.{
  Chunk, status_update_int_enable, status_update_int_disable, enable_mx_rdma, max_cont_buffer,
  load_image,
}
use pcie_host_driver.Common.Pci.{
  PciAnswers, IrqAnswers, pci_init, pci_cleanup, pci_irq_init, pci_irq_cleanup, dev_ctx_save,
  dev_lock, dev_unlock,
}
use pcie_host_driver.Common.Reset.{Revived, restore_and_check_device, reset_device}
use pcie_host_driver.Serial.Buffers.{size_add}
use pcie_host_driver.Serial.Ring.{Dma}
use pcie_host_driver.Serial.Setup.{Grant}
use pcie_host_driver.Serial.Comms.{
  Port, CommsStatus, comms_ok, comms_eio, comms_error, comms_trap, comms_init, comms_cleanup,
}

abbrev pub with_mmio : Port → Mem → Port
with_mmio p mmio = record p { link = record p.link { mmio = mmio } }

abbrev pub is_mode : Opmode → Mem → Bool
is_mode mode mmio = same_mode (get_opmode mmio) mode

unfoldable pub events_init : IrqAnswers → Port → Run (Port × Bool)
events_init a p = do
  ok ← pci_irq_init a.vectors_ok a.irq_ok
  let mmio = a.settle p.link.mmio
  if ok
      then return
          (with_mmio p (if is_mode boot mmio then status_update_int_enable mmio else mmio), true)
      else return (p, false)

unfoldable pub events_cleanup : Port → Run Port
events_cleanup p = do
  does pci_irq_cleanup
  does (cancel_job send_doorbell ∷ cancel_job rx_event ∷ cancel_job tx_event ∷ [])
  let mmio = p.link.mmio
  return (with_mmio p (if is_mode boot mmio then status_update_int_disable mmio else mmio))

-- 0, the 1 of IS_ERR, or -1
pub data ChrdevStatus : Type 0 where
  chrdev_ok chrdev_one chrdev_error : ChrdevStatus

-- `mxlk_chrdev_add`, of the outcomes of device_create and of cdev_add
unfoldable pub chrdev_add : Bool → Bool → Run ChrdevStatus
chrdev_add node_ok cdev_ok =
    if node_ok
    then if cdev_ok
      then (acquire char_device ∷ [], chrdev_ok)
      else (acquire char_device ∷ release char_device ∷ [], chrdev_error)
    else return chrdev_one

abbrev pub chrdev_remove : List Act
chrdev_remove = release char_device ∷ []

-- what is answered while the driver comes up, and the two module parameters
pub record CoreAnswers : Type 0 where
  pub pci : PciAnswers
  pub irq : IrqAnswers
  pub node_ok : Bool
  pub cdev_ok : Bool
  pub grant : Grant
  pub dma : Dma
  pub rx_size : ℕ
  pub tx_size : ℕ

-- 0, -EPERM, -1 of the PCI function, the error of the interrupt, of the device node, or of the
-- communications
pub data CoreStatus : Type 0 where
  core_ok core_eperm core_pci core_events core_eio core_load : CoreStatus
  core_chrdev : ChrdevStatus → CoreStatus
  core_comms : CommsStatus → CoreStatus

-- the way out of `mxlk_core_init` from the label `error_chrdev` on
unfoldable pub unwind : Port → CoreStatus → Run (Port × CoreStatus)
unwind p s = do q ← events_cleanup p; does pci_cleanup; return (q, s)

-- the way out from the label `error_comms` on
unfoldable pub unwind_chrdev : Port → CoreStatus → Run (Port × CoreStatus)
unwind_chrdev p s = do does chrdev_remove; unwind p s

abbrev pub save_base : Port → Run (Port × CoreStatus)
save_base p = do does (dev_ctx_save ∷ []); return (p, core_ok)

-- What follows the communications' set-up. A division by 0 in it is a trap: nothing follows, and the
-- status only says so.
unfoldable pub after_comms : Port → CommsStatus → Run (Port × CoreStatus)
after_comms p comms_ok = save_base p
after_comms p comms_trap = return (p, core_comms comms_trap)
after_comms p comms_eio = unwind_chrdev p (core_comms comms_eio)
after_comms p comms_error = unwind_chrdev p (core_comms comms_error)

-- The parts of `mxlk_core_init` from the communications, from the device node and from the interrupt
-- on, each with its way out.
unfoldable pub init_comms : CoreAnswers → Port → Run (Port × CoreStatus)
init_comms a p =
    if is_mode app_vpulink p.link.mmio
    then (do e ← comms_init a.grant a.dma a.rx_size a.tx_size p; after_comms e.0 e.1)
    else save_base p

unfoldable pub init_chrdev : CoreAnswers → Port → Run (Port × CoreStatus)
init_chrdev a p = do
  s ← chrdev_add a.node_ok a.cdev_ok
  elim s [
    | chrdev_ok ↦ init_comms a p
    | chrdev_one ↦ unwind p (core_chrdev chrdev_one)
    | chrdev_error ↦ unwind p (core_chrdev chrdev_error)
  ]

unfoldable pub init_events : CoreAnswers → Port → Run (Port × CoreStatus)
init_events a p = do
  e ← events_init a.irq p
  if e.1 then init_chrdev a e.0 else (do does pci_cleanup; return (e.0, core_events))

abbrev pub max_devices : ℕ
max_devices = 8

-- `units` is `units_found` before, which goes up by one in any case.
unfoldable pub core_init : CoreAnswers → ℕ → Port → Run (Port × CoreStatus) × ℕ
core_init a units p =
    let p' : Port = record p { unit = units } in
    let run : Run (Port × CoreStatus) =
      if ltb units max_devices
      then (do ok ← pci_init a.pci; if ok then init_events a p' else return (p', core_pci))
      else return (p', core_eperm) in
    (run, units + 1)

-- the part of `mxlk_core_cleanup` behind the communications
unfoldable pub take_down : Port → Run Port
take_down p = do does chrdev_remove; q ← events_cleanup p; does pci_cleanup; return q

unfoldable pub core_cleanup : Port → Run Port
core_cleanup p =
    if is_mode app_vpulink p.link.mmio then (do e ← comms_cleanup p; take_down e.0) else take_down p
