-- ===== src/Common/Reset.antt =====
-- common/mx_reset.c: resetting the device over its configuration space, and checking that it is back.
pub mod Sequence
use pcie_host_driver.Prelude.{ℕ, Bool, true, false, List, [], ◌∷◌, if◌then◌else◌}
use pcie_host_driver.Mmio.{Mem}
use pcie_host_driver.Common.Opmode.{boot, same_mode, get_opmode}
use pcie_host_driver.Common.Effects.{Act, write_config, Run, ◌>>=◌, ◌>>◌, does, return}
use pcie_host_driver.Common.Pci.{
  dev_enable, dev_disable, msi_set_enable, wait_for_pending_transaction, dev_ctx_save,
  dev_ctx_restore, dev_id_valid,
}

abbrev pub vendor_spec_dllp : ℕ
vendor_spec_dllp = 0x704

abbrev pub reset_dev_magic : ℕ
reset_dev_magic = 0xDEADDEAD

-- What the kernel answers to the wait for pending transactions, and what the device shows: its vendor and device words after the time for the reset, the control word of
-- its MSI capability, and its memory once the MSI is enabled again.
pub record Revived : Type 0 where
  pub settled : Bool
  pub vend_dev_id : ℕ
  pub msi_ctrl : ℕ
  pub mmio : Mem

-- `mx_reset_restore_and_check_device`; `false` for -EIO
unfoldable pub restore_and_check_device : Revived → Run Bool
restore_and_check_device r = do
  does (dev_ctx_restore ∷ [])
  does (dev_enable ∷ [])
  does (msi_set_enable r.msi_ctrl true ∷ [])
  return (same_mode (get_opmode r.mmio) boot)

-- `mx_reset_device`; `false` for -EIO
unfoldable pub reset_device : Revived → Run Bool
reset_device r = do
  does (dev_ctx_save ∷ [])
  does (dev_disable ∷ [])
  does (wait_for_pending_transaction r.settled ∷ [])
  does (write_config vendor_spec_dllp reset_dev_magic ∷ [])
  if dev_id_valid r.vend_dev_id then restore_and_check_device r else return false
