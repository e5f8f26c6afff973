-- ===== src/Common/Pci.antt =====
-- common/mx_pci.c: bringing the PCI function up and down. What the kernel answers is an argument.
pub mod Balance
use pcie_host_driver.Prelude.{
  ℕ, ◌+◌, ◌*◌, ◌^◌, ◌/◌, ◌%◌, Bool, true, false, List, [], ◌∷◌, ◌==◌, if◌then◌else◌,
}
use pcie_host_driver.Mmio.{Mem}
use pcie_host_driver.Common.Effects.{
  device, regions, mapping, vectors, irq, Act, acquire, release, stray_unmap, write_link, write_msi,
  set_master, save_ctx, restore_ctx, wait_pending, lock_device, unlock_device, Run,
}

-- the bits of a word from bit `k` on, with those below cleared
abbrev pub clear_low : ℕ → ℕ → ℕ
clear_low k v = v / 2 ^ k * 2 ^ k

-- `set_aspm`: the two low bits of the link control register replaced
unfoldable pub set_aspm : ℕ → ℕ → ℕ
set_aspm link_control aspm = clear_low 2 link_control + aspm % 2 ^ 2

-- the answers to the calls of `mx_pci_init`, the link control register and the module's parameter
pub record PciAnswers : Type 0 where
  pub enabled : Bool
  pub requested : Bool
  pub mapped : Bool
  pub dma64 : Bool
  pub dma32 : Bool
  pub link_control : ℕ
  pub aspm : ℕ

unfoldable pub pci_init : PciAnswers → Run Bool
pci_init p =
    if p.enabled
    then if p.requested
      then if p.mapped
        then if (if p.dma64 then true else p.dma32)
          then (
            acquire device
                ∷ acquire regions
                ∷ acquire mapping
                ∷ write_link (set_aspm p.link_control p.aspm)
                ∷ set_master true
                ∷ [],
            true,
          )
          else (
            acquire device
                ∷ acquire regions
                ∷ acquire mapping
                ∷ stray_unmap
                ∷ release regions
                ∷ release device
                ∷ [],
            false,
          )
        else (acquire device ∷ acquire regions ∷ release regions ∷ release device ∷ [], false)
      else (acquire device ∷ release device ∷ [], false)
    else ([], false)

abbrev pub pci_cleanup : List Act
pci_cleanup = release mapping ∷ release regions ∷ release device ∷ []

-- What the kernel answers to the request of the interrupt, and what the device has made of its memory
-- once the interrupt is set up.
pub record IrqAnswers : Type 0 where
  pub vectors_ok : Bool
  pub irq_ok : Bool
  pub settle : Mem → Mem

-- `mx_pci_irq_init`, of the answers to the two calls
unfoldable pub pci_irq_init : Bool → Bool → Run Bool
pci_irq_init vectors_ok irq_ok =
    if vectors_ok
    then if irq_ok
      then (acquire vectors ∷ acquire irq ∷ [], true)
      else (acquire vectors ∷ [], false)
    else ([], false)

abbrev pub pci_irq_cleanup : List Act
pci_irq_cleanup = release irq ∷ release vectors ∷ []

abbrev pub dev_enable : Act
dev_enable = set_master true

abbrev pub dev_disable : Act
dev_disable = set_master false

-- PCI_MSI_FLAGS_ENABLE, bit 0 of the control word
unfoldable pub msi_set_enable : ℕ → Bool → Act
msi_set_enable msi_ctrl enable =
    write_msi (if enable then clear_low 1 msi_ctrl + 1 else clear_low 1 msi_ctrl)

abbrev pub dev_lock : Act
dev_lock = lock_device

abbrev pub dev_unlock : Act
dev_unlock = unlock_device

-- whose answer is dropped
abbrev pub wait_for_pending_transaction : Bool → Act
wait_for_pending_transaction settled = wait_pending settled

abbrev pub dev_ctx_save : Act
dev_ctx_save = save_ctx

abbrev pub dev_ctx_restore : Act
dev_ctx_restore = restore_ctx

-- vendor 0x8086 and device 0x6200
unfoldable pub dev_id_valid : ℕ → Bool
dev_id_valid vend_dev_id = vend_dev_id == 0x8086 + 0x6200 * 2 ^ 16
