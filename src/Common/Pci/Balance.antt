-- ===== src/Common/Pci/Balance.antt =====
-- common/mx_pci.c: what is held after the PCI function and its interrupt are set up.
use pcie_host_driver.Prelude.{
  ◌≡◌, refl, Bool, true, false, some, Bool-cases, if◌then◌else◌, inl, inr,
}
use pcie_host_driver.Common.Effects.{Held}
use pcie_host_driver.Common.Effects.Ledger.{books}
use pcie_host_driver.Common.Pci.{PciAnswers, pci_init, pci_irq_init}

abbrev pub was_mapped : PciAnswers → Bool
was_mapped p = if p.enabled then if p.requested then p.mapped else false else false

-- Nothing that is not held is released. The device and its regions are held after the set-up exactly
-- if it succeeds, and the mapping if the device has been mapped, also where both DMA masks are
-- refused and the set-up fails.
pub pci_init-books :
    (p : PciAnswers) (h : Held)
    → books (pci_init p).0 (record h { device = false; regions = false; mapping = false })
      ≡ some
          (record h { device = (pci_init p).1; regions = (pci_init p).1; mapping = was_mapped p })
unfolding pci_init books
pci_init-books p h = elim (Bool-cases p.enabled) [
  | inr e ↦ rw (e, pci_init) refl
  | inl e ↦ elim (Bool-cases p.requested) [
    | inr r ↦ rw (e, r, pci_init) refl
    | inl r ↦ elim (Bool-cases p.mapped) [
      | inr m ↦ rw (e, r, m, pci_init) refl
      | inl m ↦ elim (Bool-cases (if p.dma64 then true else p.dma32)) [
        | inl d ↦ rw (e, r, m, d, pci_init) refl
        | inr d ↦ rw (e, r, m, d, pci_init) refl
      ]
    ]
  ]
]

pub pci_init-mapped : (p : PciAnswers) → (pci_init p).1 ≡ true → was_mapped p ≡ true
unfolding pci_init
pci_init-mapped p ok = elim (Bool-cases p.enabled) [
  | inr e ↦ let no : (pci_init p).1 ≡ false = rw (e, pci_init) refl in absurd (cc (no, ok))
  | inl e ↦ elim (Bool-cases p.requested) [
    | inr r ↦ let no : (pci_init p).1 ≡ false = rw (e, r, pci_init) refl in absurd (cc (no, ok))
    | inl r ↦ elim (Bool-cases p.mapped) [
      | inr m ↦
          let no : (pci_init p).1 ≡ false = rw (e, r, m, pci_init) refl in absurd (cc (no, ok))
      | inl m ↦ rw (e, r) m
    ]
  ]
]

-- The vectors are held after the set-up of the interrupt exactly if they are granted, also where the
-- handler is refused.
pub pci_irq_init-books :
    (h : Held) (vectors_ok irq_ok : Bool)
    → books (pci_irq_init vectors_ok irq_ok).0 (record h { vectors = false; irq = false })
      ≡ some (record h { vectors = vectors_ok; irq = (pci_irq_init vectors_ok irq_ok).1 })
unfolding pci_irq_init books
pci_irq_init-books h false b = refl
pci_irq_init-books h true false = refl
pci_irq_init-books h true true = refl
