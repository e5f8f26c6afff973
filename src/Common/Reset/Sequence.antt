-- ===== src/Common/Reset/Sequence.antt =====
-- common/mx_reset.c: when a reset succeeds, how it is triggered, and what it leaves held.
use pcie_host_driver.Prelude.{
  ◌≡◌, ◌↔◌, refl, Bool, true, false, some, not, List, [], ◌∷◌, Bool-cases, inl, inr,
}
use pcie_host_driver.Common.Opmode.{
  Opmode, unknown, boot, loader, app_vpual, app_vpulink, get_opmode, same_mode,
}
use pcie_host_driver.Common.Effects.{Act, write_config, set_master, wait_pending, Held}
use pcie_host_driver.Common.Effects.Ledger.{books}
use pcie_host_driver.Common.Pci.{msi_set_enable, dev_id_valid}
use pcie_host_driver.Common.Reset.{Revived, restore_and_check_device, reset_device}

pub same_mode-boot_iff : (m : Opmode) → (same_mode m boot ≡ true) ↔ (m ≡ boot)
same_mode-boot_iff unknown = ((λ e. cc), (λ e. cc))
same_mode-boot_iff boot = ((λ e. refl), (λ e. refl))
same_mode-boot_iff loader = ((λ e. cc), (λ e. cc))
same_mode-boot_iff app_vpual = ((λ e. cc), (λ e. cc))
same_mode-boot_iff app_vpulink = ((λ e. cc), (λ e. cc))

-- What the driver knows of the device: whether it is a bus master, whether a wait for its transactions
-- has been made since it is none, and whether one may still be pending.
pub record Bus : Type 0 where
  pub master : Bool
  pub waited : Bool
  pub pending : Bool

abbrev pub busy : Bus
busy = record { master = true; waited = false; pending = true }

-- The configuration space is written only while the device is no bus master and behind a wait, with a
-- transaction pending exactly where the wait's answer is not `settled`.
abbrev pub WritesQuietly : Bool → Bus → List Act → Type 0
WritesQuietly settled t [] = Unit
WritesQuietly settled t (write_config a v ∷ acts) =
    (t.master ≡ false)
    × (t.waited ≡ true)
    × (t.pending ≡ not settled)
    × WritesQuietly settled t acts
WritesQuietly settled t (set_master true ∷ acts) = WritesQuietly settled busy acts
WritesQuietly settled t (set_master false ∷ acts) =
    WritesQuietly settled (record t { master = false; waited = false }) acts
WritesQuietly settled t (wait_pending true ∷ acts) =
    WritesQuietly settled (record t { waited = not t.master; pending = t.master }) acts
WritesQuietly settled t (wait_pending false ∷ acts) =
    WritesQuietly settled (record t { waited = not t.master }) acts
WritesQuietly settled t (act ∷ acts) = WritesQuietly settled t acts

pub restore_and_check_device-books :
    (r : Revived) (h : Held) → books (restore_and_check_device r).0 h ≡ some h
unfolding books restore_and_check_device msi_set_enable
restore_and_check_device-books r h = refl

-- What a reset does.
pub record ResetDone (r : Revived) (h : Held) : Type 0 where
  pub held : books (reset_device r).0 h ≡ some h
  pub quiet : WritesQuietly r.settled busy (reset_device r).0
  pub back :
      ((reset_device r).1 ≡ true)
      ↔ ((dev_id_valid r.vend_dev_id ≡ true) × (get_opmode r.mmio ≡ boot))

reset_device-WritesQuietly : (r : Revived) → WritesQuietly r.settled busy (reset_device r).0
unfolding reset_device restore_and_check_device msi_set_enable
reset_device-WritesQuietly r = elim (Bool-cases (dev_id_valid r.vend_dev_id)) [
  | inl e ↦
      rw (e, reset_device)
        (elim (Bool-cases r.settled) [
          | inl s ↦ rw s (refl, refl, refl, tt)
          | inr s ↦ rw s (refl, refl, refl, tt)
        ])
  | inr e ↦
      rw (e, reset_device)
        (elim (Bool-cases r.settled) [
          | inl s ↦ rw s (refl, refl, refl, tt)
          | inr s ↦ rw s (refl, refl, refl, tt)
        ])
]

-- A reset is triggered only when the device is no bus master and its transactions have been waited for;
-- one may then still be pending exactly if that wait was in vain, whose answer is not looked at. It
-- succeeds exactly if the device then shows its id and comes back in boot mode; and it leaves what is
-- held as it is.
pub reset_device-ResetDone : (r : Revived) (h : Held) → ResetDone r h
unfolding books reset_device restore_and_check_device msi_set_enable
reset_device-ResetDone r h = elim (Bool-cases (dev_id_valid r.vend_dev_id)) [
  | inl e ↦
      let same = same_mode-boot_iff (get_opmode r.mmio) in
      record {
        held = rw (e, reset_device) refl;
        quiet = reset_device-WritesQuietly r;
        back = rw (e, reset_device) ((λ k. (refl, same.0 k)), (λ k. same.1 k.1));
      }
  | inr e ↦ record {
    held = rw (e, reset_device) refl;
    quiet = reset_device-WritesQuietly r;
    back = rw (e, reset_device) ((λ k. cc), (λ k. cc));
  }
]
