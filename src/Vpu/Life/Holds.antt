-- ===== src/Vpu/Life/Holds.antt =====
-- vpu/mxvp/mxvp_main.c and mxvp_bspec.c: what is held when a probe has ended, and after a removal.
use pcie_host_driver.Prelude.{
  ◌≡◌, refl, sym, ap, ◌∙◌, inl, inr, Bool, true, false, ◌&&◌, some, List, [], ◌++◌, append-nil,
  Bool-cases, Option-cases, if◌then◌else◌,
}
use pcie_host_driver.Mmio.{Mem}
use pcie_host_driver.Common.Effects.{Held, nothing, Act}
use pcie_host_driver.Common.Effects.Ledger.{books, books-append}
use pcie_host_driver.Vpu.Events.{
  Platform, no_wq, no_pci, pci_failed, events_failed, startup_failed, pool_failed, cmd_list_failed,
  dma_list_failed, Outcome, failed, ready, overran,
}
use pcie_host_driver.Vpu.Life.{VpuPci, pci_set_aspm, pci_init, acts_of, bspec_run, probe}

abbrev pub bare : Held
bare = record nothing { instance_memory = true }

-- what the set-up of the PCI function holds however it ends
abbrev pub pci_held : VpuPci → Held
pci_held p =
    let requested = if p.enabled then p.requested else false in
    let mapped = if requested then p.mmio_ok else false in
    record bare {
      device = p.enabled;
      regions = requested;
      mapping = mapped;
      ddr_mapping = if mapped then p.ddr_ok else false;
    }

pci_init-books : (p : VpuPci) → books (pci_init p).0 bare ≡ some (pci_held p)
unfolding pci_init books pci_set_aspm
pci_init-books p = elim (Bool-cases p.enabled) [
  | inr e ↦ rw (e, pci_init) refl
  | inl e ↦ elim (Bool-cases p.requested) [
    | inr r ↦ rw (e, r, pci_init) refl
    | inl r ↦ elim (Bool-cases p.mmio_ok) [
      | inr m ↦ rw (e, r, m, pci_init) refl
      | inl m ↦ elim (Bool-cases p.ddr_ok) [
        | inr d ↦ rw (e, r, m, d, pci_init) refl
        | inl d ↦ elim (Bool-cases (if p.dma64 then true else p.dma32)) [
          | inr k ↦ rw (e, r, m, d, k, pci_init) refl
          | inl k ↦ elim (Option-cases p.link_control) [
            | inl n ↦ rw (e, r, m, d, k, n, pci_init) refl
            | inr (v, n) ↦ rw (e, r, m, d, k, n, pci_init) refl
          ]
        ]
      ]
    ]
  ]
]

-- what is held in addition when the set-up stops with an outcome
abbrev pub with_outcome : Bool → Bool → Outcome → Held → Held
with_outcome v i (failed no_wq) h = h
with_outcome v i (failed no_pci) h = h
with_outcome v i (failed pci_failed) h = h
with_outcome v i (failed events_failed) h = record h { vectors = v; irq = v && i }
with_outcome v i (failed startup_failed) h = record h { vectors = v; irq = v && i }
with_outcome v i (failed pool_failed) h = record h { vectors = v; irq = v && i }
with_outcome v i (failed cmd_list_failed) h = record h { vectors = v; irq = v && i; blocks = true }
with_outcome v i (failed dma_list_failed) h = record h {
  vectors = v;
  irq = v && i;
  blocks = true;
  cmd_list = true;
}
with_outcome v i overran h = record h { vectors = v; irq = v && i }
with_outcome v i (ready r) h = record h {
  vectors = v;
  irq = v && i;
  blocks = true;
  cmd_list = true;
  dma_list = true;
}

-- the parts that the set-up has not got to
abbrev untouched : Held → Held
untouched h = record h {
  vectors = false;
  irq = false;
  blocks = false;
  cmd_list = false;
  dma_list = false;
}

acts_of-books :
    (v i : Bool) (o : Outcome) (h : Held)
    → books (acts_of v i o) (untouched h) ≡ some (with_outcome v i o (untouched h))
unfolding books acts_of
acts_of-books v i (failed no_wq) h = refl
acts_of-books v i (failed no_pci) h = refl
acts_of-books v i (failed pci_failed) h = refl
acts_of-books false i (failed events_failed) h = refl
acts_of-books true false (failed events_failed) h = refl
acts_of-books true true (failed events_failed) h = refl
acts_of-books false i (failed startup_failed) h = refl
acts_of-books true false (failed startup_failed) h = refl
acts_of-books true true (failed startup_failed) h = refl
acts_of-books false i (failed pool_failed) h = refl
acts_of-books true false (failed pool_failed) h = refl
acts_of-books true true (failed pool_failed) h = refl
acts_of-books false i (failed cmd_list_failed) h = refl
acts_of-books true false (failed cmd_list_failed) h = refl
acts_of-books true true (failed cmd_list_failed) h = refl
acts_of-books false i (failed dma_list_failed) h = refl
acts_of-books true false (failed dma_list_failed) h = refl
acts_of-books true true (failed dma_list_failed) h = refl
acts_of-books false i overran h = refl
acts_of-books true false overran h = refl
acts_of-books true true overran h = refl
acts_of-books false i (ready r) h = refl
acts_of-books true false (ready r) h = refl
acts_of-books true true (ready r) h = refl

-- what the set-up starts its later part with
abbrev pub base_held : VpuPci → Platform → Held
base_held a p = if p.has_wq then if p.has_pci then pci_held a else bare else bare

abbrev pci_part : VpuPci → Platform → List Act
pci_part a p = if p.has_wq then if p.has_pci then (pci_init a).0 else [] else []

pci_part-books : (a : VpuPci) (p : Platform) → books (pci_part a p) bare ≡ some (base_held a p)
unfolding books
pci_part-books a p = elim (Bool-cases p.has_wq) [
  | inr w ↦ rw w refl
  | inl w ↦ elim (Bool-cases p.has_pci) [
    | inr k ↦ rw (w, k) refl
    | inl k ↦ rw (w, k) (pci_init-books a)
  ]
]

base_held-untouched : (a : VpuPci) (p : Platform) → base_held a p ≡ untouched (base_held a p)
base_held-untouched a p = elim (Bool-cases p.has_wq) [
  | inr w ↦ rw w refl
  | inl w ↦ elim (Bool-cases p.has_pci) [ inr k ↦ rw (w, k) refl | inl k ↦ rw (w, k) refl ]
]

-- A probe gives nothing up, however it returns: what its steps have acquired is held, the structure
-- too. Where the DDR has no whole block, the same holds at the point where the set-up of the pool
-- leaves its array, from where the code is not followed.
pub probe-with_outcome :
    (a : VpuPci) (p : Platform) (mmio : Mem)
    → books (probe true a p mmio).0 nothing
      ≡ some (with_outcome p.vectors_ok p.irq_ok (bspec_run a p mmio).1 (base_held a p))
unfolding books probe bspec_run
probe-with_outcome a p mmio =
    let o = (bspec_run a p mmio).1 in
    let acts = acts_of p.vectors_ok p.irq_ok o in
    let h = base_held a p in
    ap (λ l. books l bare) (append-nil (pci_part a p ++ acts))
    ∙ books-append (pci_part a p) acts bare h (pci_part-books a p)
    ∙ ap (books acts) (base_held-untouched a p)
    ∙ acts_of-books p.vectors_ok p.irq_ok o h
    ∙ ap (λ k. some (with_outcome p.vectors_ok p.irq_ok o k)) (sym (base_held-untouched a p))
