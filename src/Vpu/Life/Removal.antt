-- ===== src/Vpu/Life/Removal.antt =====
-- vpu/mxvp/mxvp_main.c and mxvp_bspec.c: the life of an instance that comes up.
use pcie_host_driver.Prelude.{
  ◌≡◌, refl, sym, ap, ◌∙◌, inl, inr, Bool, true, false, ◌&&◌, some, ◌++◌, Bool-cases,
}
use pcie_host_driver.Mmio.{Mem}
use pcie_host_driver.Common.Effects.{Held, nothing}
use pcie_host_driver.Common.Effects.Ledger.{books, books-append}
use pcie_host_driver.Vpu.Events.{
  Platform, no_wq, no_pci, pci_failed, events_failed, failed, ready, Ready, bspec_init,
}
use pcie_host_driver.Vpu.Life.{VpuPci, pci_init, bspec_run, bspec_cleanup, probe, remove}
use pcie_host_driver.Vpu.Life.Holds.{bare, pci_held, with_outcome, base_held, probe-with_outcome}

-- all that a driver that is up holds
abbrev pub all_held : Held
all_held = record bare {
  device = true;
  regions = true;
  mapping = true;
  ddr_mapping = true;
  vectors = true;
  irq = true;
  blocks = true;
  cmd_list = true;
  dma_list = true;
}

-- what a set-up that comes up was granted
record Granted (p : Platform) : Type 0 where
  wq : p.has_wq ≡ true
  dev : p.has_pci ≡ true
  pci : p.pci_ok ≡ true
  vectors : p.vectors_ok ≡ true
  irq : p.irq_ok ≡ true

module _ (p : Platform) (mmio : Mem) where
  stops-wq : p.has_wq ≡ false → bspec_init p mmio ≡ failed no_wq
  unfolding bspec_init
  stops-wq e = rw e refl

  stops-pci : p.has_wq ≡ true → p.has_pci ≡ false → bspec_init p mmio ≡ failed no_pci
  unfolding bspec_init
  stops-pci w e = rw (w, e) refl

  stops-function :
      p.has_wq ≡ true → p.has_pci ≡ true → p.pci_ok ≡ false → bspec_init p mmio ≡ failed pci_failed
  unfolding bspec_init
  stops-function w d e = rw (w, d, e) refl

  stops-events :
      p.has_wq ≡ true
      → p.has_pci ≡ true
      → p.pci_ok ≡ true
      → (p.vectors_ok && p.irq_ok) ≡ false
      → bspec_init p mmio ≡ failed events_failed
  unfolding bspec_init
  stops-events w d k e = elim (Bool-cases p.vectors_ok) [
    | inr v ↦ rw (w, d, k, v) refl
    | inl v ↦
        let i : p.irq_ok ≡ false = ap (λ b. b && p.irq_ok) (sym v) ∙ e in rw (w, d, k, v, i) refl
  ]

  both-true : (b c : Bool) → (b && c) ≡ true → (b ≡ true) × (c ≡ true)
  both-true true true e = (refl, refl)
  both-true true false e = absurd (cc e)
  both-true false c e = absurd (cc e)

  bspec_init-Granted : (r : Ready) → bspec_init p mmio ≡ ready r → Granted p
  bspec_init-Granted r up = elim (Bool-cases p.has_wq) [
    | inr w ↦ absurd (cc (stops-wq w, up))
    | inl w ↦ elim (Bool-cases p.has_pci) [
      | inr d ↦ absurd (cc (stops-pci w d, up))
      | inl d ↦ elim (Bool-cases p.pci_ok) [
        | inr k ↦ absurd (cc (stops-function w d k, up))
        | inl k ↦ elim (Bool-cases (p.vectors_ok && p.irq_ok)) [
          | inr e ↦ absurd (cc (stops-events w d k e, up))
          | inl e ↦
              let (v, i) = both-true p.vectors_ok p.irq_ok e in
              record { wq = w; dev = d; pci = k; vectors = v; irq = i }
        ]
      ]
    ]
  ]

abbrev pci_full : Held
pci_full = record bare { device = true; regions = true; mapping = true; ddr_mapping = true }

pci_init-held : (a : VpuPci) → (pci_init a).1 ≡ true → pci_held a ≡ pci_full
unfolding pci_init
pci_init-held a ok = elim (Bool-cases a.enabled) [
  | inr e ↦ let no : (pci_init a).1 ≡ false = rw (e, pci_init) refl in absurd (cc (no, ok))
  | inl e ↦ elim (Bool-cases a.requested) [
    | inr r ↦ let no : (pci_init a).1 ≡ false = rw (e, r, pci_init) refl in absurd (cc (no, ok))
    | inl r ↦ elim (Bool-cases a.mmio_ok) [
      | inr m ↦
          let no : (pci_init a).1 ≡ false = rw (e, r, m, pci_init) refl in absurd (cc (no, ok))
      | inl m ↦ elim (Bool-cases a.ddr_ok) [
        | inr d ↦
            let no : (pci_init a).1 ≡ false = rw (e, r, m, d, pci_init) refl in absurd (cc (no, ok))
        | inl d ↦ rw (e, r, m, d) refl
      ]
    ]
  ]
]

remove-books : (kmem : Mem) (r : Ready) → books (remove kmem r).0 all_held ≡ some nothing
unfolding books remove bspec_cleanup
remove-books kmem r = refl

-- An instance that comes up holds all; its removal gives up exactly that.
pub probe-remove_ready :
    (a : VpuPci) (p : Platform) (mmio kmem : Mem) (r q : Ready)
    → (bspec_run a p mmio).1 ≡ ready r
    → (books (probe true a p mmio).0 nothing ≡ some all_held)
      × (books ((probe true a p mmio).0 ++ (remove kmem q).0) nothing ≡ some nothing)
unfolding bspec_run
probe-remove_ready a p mmio kmem r q up =
    let g = bspec_init-Granted (record p { pci_ok = (pci_init a).1 }) mmio r up in
    let base : base_held a p ≡ pci_full = rw (g.wq, g.dev) (pci_init-held a g.pci) in
    let held =
      probe-with_outcome a p mmio
      ∙ ap (λ o. some (with_outcome p.vectors_ok p.irq_ok o (base_held a p))) up
      ∙ ap (λ h. some (with_outcome p.vectors_ok p.irq_ok (ready r) h)) base
      ∙ ap (λ v. some (with_outcome v p.irq_ok (ready r) pci_full)) g.vectors
      ∙ ap (λ i. some (with_outcome true i (ready r) pci_full)) g.irq in
    (
      held,
      books-append (probe true a p mmio).0 (remove kmem q).0 nothing all_held held
          ∙ remove-books kmem q,
    )
