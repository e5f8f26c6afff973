-- ===== src/Loader.antt =====
-- boot/mxbl/mxbl_core.c, mxbl_char.c and mxbl_main.c: the stand-alone loader, as it is built without an
-- embedded image. The transfer lock is not modelled.
pub mod Init
pub mod Restart
pub mod Life
pub mod Module
use pcie_host_driver.Prelude.{
  ℕ, ◌+◌, ◌/◌, ◌%◌, ◌^◌, Bool, true, false, not, ◌&&◌, Option, none, some, List, [], ◌∷◌, ◌++◌, ltb,
  ◌==◌, if◌then◌else◌, length, take, min,
}
use pcie_host_driver.Mmio.{Mem, Bytes, rd32, wr32, rd_buf}
use pcie_host_driver.Common.Effects.{
  Act, acquire, release, instance_memory, char_device, queue_job, cancel_job, status_update, Run,
  ◌>>=◌, ◌>>◌, does, return,
}
use pcie_host_driver.Common.Opmode.{boot, same_mode, get_opmode, main_magic, magic_length}
use pcie_host_driver.Common.Boot.{
  Chunk, Sent, status_update_int_enable, status_update_int_disable, load_image,
}
use pcie_host_driver.Common.Pci.{
  PciAnswers, IrqAnswers, pci_init, pci_cleanup, pci_irq_init, pci_irq_cleanup,
}
use pcie_host_driver.Common.Reset.{Revived, reset_device}

-- `struct mxbl`, with the device's memory and the module's `units_found`; `minor` is that of the device
-- node.
pub record Mxbl : Type 0 where
  pub units_found : ℕ
  pub mmio : Mem
  pub unit : ℕ
  pub added : Bool
  pub minor : ℕ

abbrev pub reg_int_identity : ℕ
reg_int_identity = 0x30

abbrev pub is_boot : Mem → Bool
is_boot mmio = same_mode (get_opmode mmio) boot

-- `mxbl_event_isr`
unfoldable pub event_isr : Mxbl → Run Mxbl
event_isr m = do
  does (if rd32 m.mmio reg_int_identity % 2 == 1 then queue_job status_update ∷ [] else [])
  return (record m { mmio = wr32 m.mmio reg_int_identity 0 })

unfoldable pub events_init : IrqAnswers → Mxbl → Run (Mxbl × Bool)
events_init a m = do
  ok ← pci_irq_init a.vectors_ok a.irq_ok
  if ok
      then return (record m { mmio = status_update_int_enable (a.settle m.mmio) }, true)
      else return (m, false)

unfoldable pub events_cleanup : Mxbl → Run Mxbl
events_cleanup m = do
  does (cancel_job status_update ∷ [])
  does pci_irq_cleanup
  return (record m { mmio = if is_boot m.mmio then status_update_int_disable m.mmio else m.mmio })

-- 0, -EEXIST, the error of device_create, or -1
pub data AddStatus : Type 0 where
  add_ok add_eexist add_node add_error : AddStatus

-- `mxbl_chrdev_add`, of the outcomes of device_create and of cdev_add
unfoldable pub chrdev_add : Bool → Bool → Mxbl → Run (Mxbl × AddStatus)
chrdev_add node_ok cdev_ok m =
    if not m.added
    then if node_ok
      then if cdev_ok
        then (acquire char_device ∷ [], (record m { added = true; minor = m.unit }, add_ok))
        else (acquire char_device ∷ release char_device ∷ [], (m, add_error))
      else return (m, add_node)
    else return (m, add_eexist)

unfoldable pub chrdev_remove : Mxbl → Run Mxbl
chrdev_remove m =
    if m.added then (release char_device ∷ [], record m { added = false }) else return m

-- `mxbl_status_update_handler`
unfoldable pub status_update_handler : Bool → Bool → Mxbl → Run Mxbl
status_update_handler node_ok cdev_ok m =
    if is_boot m.mmio then (do e ← chrdev_add node_ok cdev_ok m; return e.0) else return m

-- What is answered during the set-up: the first request of the interrupt, the reset, and the second
-- request after that.
pub record LoaderAnswers : Type 0 where
  pub has_wq : Bool
  pub has_pci : Bool
  pub pci : PciAnswers
  pub irq : IrqAnswers
  pub revived : Revived
  pub irq_again : IrqAnswers
  pub node_ok : Bool
  pub cdev_ok : Bool

-- 0, -EINVAL, or the error of a part
pub data LoaderStatus : Type 0 where
  loader_ok loader_einval loader_pci loader_events loader_reset : LoaderStatus

abbrev pub max_devices : ℕ
max_devices = 8

-- The last part of `mxbl_core_init`: the device node and the unit. With too many units the way out
-- returns the error that is left, which is 0.
unfoldable pub init_unit : LoaderAnswers → Mxbl → Run (Mxbl × LoaderStatus)
init_unit a m = do
  e ←
      (if is_boot m.mmio && not m.added
        then chrdev_add a.node_ok a.cdev_ok m
        else return (m, add_eexist))
  let m' : Mxbl = record e.0 { unit = e.0.units_found; units_found = e.0.units_found + 1 }
  if ltb m'.unit max_devices
      then return (m', loader_ok)
      else (do q ← events_cleanup m'; r ← chrdev_remove q; does pci_cleanup; return (r, loader_ok))

-- the part that resets a device that is not in boot mode
unfoldable pub init_reset : LoaderAnswers → Mxbl → Run (Mxbl × LoaderStatus)
init_reset a m = if is_boot m.mmio then init_unit a m else (do
  q ← events_cleanup m
  ok ← reset_device a.revived
  let back : Mxbl = record q { mmio = a.revived.mmio }
  if ok
      then (do e ← events_init a.irq_again back; init_unit a e.0)
      else (do does pci_cleanup; return (back, loader_reset)))

unfoldable pub init_events : LoaderAnswers → Mxbl → Run (Mxbl × LoaderStatus)
init_events a m = do
  e ← events_init a.irq m
  if e.1 then init_reset a e.0 else (do does pci_cleanup; return (e.0, loader_events))

-- `mxbl_core_init`
unfoldable pub core_init : LoaderAnswers → Mxbl → Run (Mxbl × LoaderStatus)
core_init a m =
    if not a.has_wq
    then return (m, loader_einval)
    else if not a.has_pci
    then return (m, loader_einval)
    else (do ok ← pci_init a.pci; if ok then init_events a m else return (m, loader_pci))

unfoldable pub core_cleanup : Mxbl → Run Mxbl
core_cleanup m = do q ← chrdev_remove m; r ← events_cleanup q; does pci_cleanup; return r

-- `mxbl_dev_read`: the bytes that are copied to the user, and what is returned in any case
unfoldable pub dev_read : Mxbl → ℕ → Bytes × ℕ
dev_read m length =
    let n = min length magic_length in (take n (rd_buf m.mmio main_magic magic_length), n)

-- `mxbl_dev_write`: the device's memory, and the length or `none` for an error
unfoldable pub dev_write :
    ℕ → ℕ → (ℕ → Chunk) → (ℕ → Chunk) → Bytes → Mxbl → Bytes → Option (Mxbl × Option ℕ)
dev_write fuel polls env bl_env bl m src =
    elim (load_image fuel polls env bl_env bl true m.mmio src) [
      | none ↦ none
      | some e ↦ some (record m { mmio = e.0 }, if e.2 then some (length src) else none)
    ]

-- `mxbl_probe`, which returns what `mxbl_core_init` does; `none` for -ENOMEM
unfoldable pub probe : Bool → LoaderAnswers → Mxbl → Run (Mxbl × Option LoaderStatus)
probe memory_ok a m =
    if memory_ok
    then (do does (acquire instance_memory ∷ []); e ← core_init a m; return (e.0, some e.1))
    else return (m, none)

-- `mxbl_remove`
unfoldable pub remove : Mxbl → Run Mxbl
remove m = do q ← core_cleanup m; does (release instance_memory ∷ []); return q
