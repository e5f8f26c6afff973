-- ===== src/Serial/Admin.antt =====
-- serial/mxlk/mxlk_core.c, mxlk_char.c and mxlk_main.c: the interrupt, resetting and booting the
-- device, the ioctl, and the probe and the removal of an instance.
pub mod Outcomes
pub mod Booted
pub mod Life
pub mod Cycle
use pcie_host_driver.Prelude.{
  ℕ, ◌+◌, ◌^◌, Bool, true, false, not, Option, none, some, List, [], ◌∷◌, ◌++◌, map, ltb,
  if◌then◌else◌, length,
}
use pcie_host_driver.Mmio.{Mem, Bytes, wr32}
use pcie_host_driver.Common.Effects.{
  Act, acquire, release, instance_memory, write_config, queue_job, rx_event, tx_event, Run, ◌>>=◌,
  ◌>>◌, does, return,
}
use pcie_host_driver.Common.Opmode.{
  Opmode, unknown, boot, loader, app_vpual, app_vpulink, get_opmode,
}
use pcie_host_driver.Common.Boot.{Chunk, Sent, enable_mx_rdma, max_cont_buffer, load_image}
use pcie_host_driver.Common.Pci.{IrqAnswers, dev_ctx_save, dev_lock, dev_unlock}
use pcie_host_driver.Common.Reset.{Revived, restore_and_check_device, reset_device}
use pcie_host_driver.Serial.Buffers.{size_add}
use pcie_host_driver.Serial.Ring.{Dma}
use pcie_host_driver.Serial.Setup.{Grant}
use pcie_host_driver.Serial.Comms.{Port, comms_trap, ring_doorbell, comms_init, comms_cleanup}
use pcie_host_driver.Serial.Comms.Refuse.{is_ok}
use pcie_host_driver.Serial.Control.{
  with_mmio, is_mode, events_init, events_cleanup, CoreAnswers, CoreStatus, core_ok, core_eperm,
  core_events, core_eio, core_load, core_comms, core_init, core_cleanup,
}

abbrev pub reg_int_identity : ℕ
reg_int_identity = 0x30

-- `mxlk_interrupt`
unfoldable pub interrupt : Port → Run Port
interrupt p = elim (get_opmode p.link.mmio) [
  | app_vpulink ↦ do
    does (queue_job tx_event ∷ [])
    does (queue_job rx_event ∷ [])
    return (record p { interrupts = size_add p.interrupts 1 })
  | boot ↦ return (with_mmio p (wr32 p.link.mmio reg_int_identity 0))
  | unknown ↦ return p
  | loader ↦ return p
  | app_vpual ↦ return p
]

-- `mxlk_send_doorbell_handler`
unfoldable pub send_doorbell_handler : Port → Run Port
send_doorbell_handler p = ring_doorbell p

-- what is answered during a reset: what the device shows after its context is restored, and after a
-- reset, and the request of the interrupt
pub record ResetAnswers : Type 0 where
  pub restored : Revived
  pub revived : Revived
  pub irq : IrqAnswers

-- The part of `mxlk_core_reset_dev` that stops everything.
unfoldable pub quiesce : Port → Run Port
quiesce p = do c ← comms_cleanup p; events_cleanup c.0

-- its last part, from the new set-up of the interrupt on
unfoldable pub resume : ResetAnswers → Port → Run (Port × CoreStatus)
resume a p = do
  e ← events_init a.irq p
  if e.1 then (do does (dev_ctx_save ∷ []); return (e.0, core_ok)) else return (e.0, core_events)

-- in the mode of an application
unfoldable pub reset_app : ResetAnswers → Port → Run (Port × CoreStatus)
reset_app a p = do
  q ← quiesce p
  does (dev_lock ∷ [])
  ok ← reset_device a.revived
  does (dev_unlock ∷ [])
  if ok
      then resume a (with_mmio q a.revived.mmio)
      else return (with_mmio q a.revived.mmio, core_eio)

-- when the device shows no mode
unfoldable pub reset_lost : ResetAnswers → Port → Run (Port × CoreStatus)
reset_lost a p = do
  ok ← restore_and_check_device a.restored
  if ok
      then (do q ← quiesce (with_mmio p a.restored.mmio); resume a q)
      else return (with_mmio p a.restored.mmio, core_eio)

unfoldable pub reset_by : Opmode → ResetAnswers → Port → Run (Port × CoreStatus)
reset_by boot a p = return (p, core_ok)
reset_by unknown a p = reset_lost a p
reset_by loader a p = return (p, core_eperm)
reset_by app_vpual a p = reset_app a p
reset_by app_vpulink a p = reset_app a p

-- `mxlk_core_reset_dev`
abbrev pub reset_dev : ResetAnswers → Port → Run (Port × CoreStatus)
reset_dev a p = reset_by (get_opmode p.link.mmio) a p

-- what is answered while an image is loaded, with the fuel, and after that
pub record BootAnswers : Type 0 where
  pub fuel : ℕ
  pub polls : ℕ
  pub env : ℕ → Chunk
  pub bl_env : ℕ → Chunk
  pub bl : Bytes
  pub irq : IrqAnswers
  pub grant : Grant
  pub dma : Dma
  pub rx_size : ℕ
  pub tx_size : ℕ

-- The writes of `enable_mx_rdma`, done once more for the second-stage loader.
unfoldable pub load_acts : Bytes → List Act
load_acts src =
    let rdma = map (λ w. write_config w.0 w.1) enable_mx_rdma in
    if ltb max_cont_buffer (length src) then rdma ++ rdma else rdma

-- The last part of `mxlk_core_boot_dev`, once the image is loaded. Where the communications' set-up
-- traps, the status only says so.
unfoldable pub boot_comms : BootAnswers → Port → Run (Port × CoreStatus)
boot_comms a p =
    if is_mode app_vpulink p.link.mmio
    then (do
      c ← comms_init a.grant a.dma a.rx_size a.tx_size p
      return (c.0, if is_ok c.1 then core_ok else core_comms c.1))
    else return (p, core_ok)

unfoldable pub boot_up : BootAnswers → Port → Run (Port × CoreStatus)
boot_up a p = do
  e ← events_init a.irq p
  if e.1 then boot_comms a e.0 else return (e.0, core_events)

unfoldable pub boot_loaded :
    BootAnswers → Port → Bytes → Mem × List Sent × Bool → Run (Port × CoreStatus)
boot_loaded a p src (mmio, log, ok) = do
  q ← events_cleanup p
  does (load_acts src)
  if ok then boot_up a (with_mmio q mmio) else return (with_mmio q mmio, core_load)

-- `mxlk_core_boot_dev`; `none` when the fuel runs out
unfoldable pub boot_dev : BootAnswers → Port → Bytes → Option (Run (Port × CoreStatus))
boot_dev a p src =
    let q = (events_cleanup p).1 in
    if is_mode boot p.link.mmio
    then elim (load_image a.fuel a.polls a.env a.bl_env a.bl true q.link.mmio src) [
      | none ↦ none
      | some e ↦ some (boot_loaded a p src e)
    ]
    else some (return (p, core_eperm))

-- `enum mxlk_fw_status`
pub data FwStatus : Type 0 where
  bootloader user_app unknown_state : FwStatus

unfoldable pub get_dev_status : Mem → FwStatus
get_dev_status mmio = elim (get_opmode mmio) [
  | boot ↦ bootloader
  | unknown ↦ unknown_state
  | loader ↦ user_app
  | app_vpual ↦ user_app
  | app_vpulink ↦ user_app
]

-- The commands of the ioctl; an image comes with the parameter, as the copy from the user gives it.
pub data IoctlCmd : Type 0 where
  reset_cmd status_cmd other_cmd : IoctlCmd
  boot_cmd : Bytes → IoctlCmd

-- `mxlk_dev_ioctl`: with the status that is copied to the user for MXLK_STATUS_DEV
unfoldable pub dev_ioctl :
    ResetAnswers
    → BootAnswers
    → Port
    → IoctlCmd
    → Option (Run (Port × CoreStatus) × Option FwStatus)
dev_ioctl r b p reset_cmd = some (reset_dev r p, none)
dev_ioctl r b p status_cmd = some (return (p, core_ok), some (get_dev_status p.link.mmio))
dev_ioctl r b p other_cmd = some (return (p, core_eperm), none)
dev_ioctl r b p (boot_cmd image) = elim (boot_dev b p image) [
  | none ↦ none
  | some run ↦ some (run, none)
]

-- -ENOMEM, or what `mxlk_core_init` returns
pub data ProbeStatus : Type 0 where
  probe_enomem : ProbeStatus
  probed : CoreStatus → ProbeStatus

-- The structure is freed on an error; in a trap the probe does not get to that.
abbrev pub keeps_memory : CoreStatus → Bool
keeps_memory core_ok = true
keeps_memory (core_comms comms_trap) = true
keeps_memory _ = false

-- `mxlk_probe`, with the new value of `units_found`
unfoldable pub probe : Bool → CoreAnswers → ℕ → Port → Run (Port × ProbeStatus) × ℕ
probe memory_ok a units p =
    let (run, units') = core_init a units p in
    if memory_ok
    then (
      (do
        does (acquire instance_memory ∷ [])
        e ← run
        does (if keeps_memory e.1 then [] else release instance_memory ∷ [])
        return (e.0, probed e.1)),
      units',
    )
    else (return (p, probe_enomem), units)

-- `mxlk_remove`
unfoldable pub remove : Port → Run Port
remove p = do q ← core_cleanup p; does (release instance_memory ∷ []); return q
