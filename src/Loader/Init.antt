-- ===== src/Loader/Init.antt =====
-- boot/mxbl/mxbl_core.c: what is held after `mxbl_core_init`.
use pcie_host_driver.Prelude.{
  ◌+◌, ◌≡◌, refl, sym, ap, subst, ◌∙◌, Bool, true, false, not, ◌&&◌, some, [], ◌++◌, inl, inr, ltb,
  Bool-cases, if◌then◌else◌,
}
use pcie_host_driver.Common.Effects.{Held, nothing, Run, return}
use pcie_host_driver.Common.Effects.Ledger.{books, books-append}
use pcie_host_driver.Common.Pci.{IrqAnswers, pci_cleanup, pci_irq_init}
use pcie_host_driver.Common.Pci.Balance.{was_mapped}
use pcie_host_driver.Loader.{
  Mxbl, is_boot, events_init, events_cleanup, AddStatus, add_eexist, chrdev_add, chrdev_remove,
  LoaderAnswers, LoaderStatus, loader_ok, loader_einval, loader_pci, loader_events, loader_reset,
  max_devices, init_unit,
}

abbrev pub bare : Held
bare = record nothing { instance_memory = true }

abbrev pub mapped : Held
mapped = record bare { device = true; regions = true; mapping = true }

-- all that a loader that is up holds, with its device node or not
abbrev pub up : Bool → Held
up added = record mapped { vectors = true; irq = true; char_device = added }

pub events_cleanup-books :
    (m : Mxbl) (h : Held)
    → books (events_cleanup m).0 (record h { vectors = true; irq = true })
      ≡ some (record h { vectors = false; irq = false })
unfolding books events_cleanup
events_cleanup-books m h = refl

pub events_init-books :
    (a : IrqAnswers) (m : Mxbl) (h : Held)
    → books (events_init a m).0 (record h { vectors = false; irq = false })
      ≡ some (record h { vectors = a.vectors_ok; irq = (events_init a m).1.1 })
unfolding books events_init pci_irq_init
events_init-books a m h = elim (Bool-cases a.vectors_ok) [
  | inr v ↦ rw (v, events_init) refl
  | inl v ↦ elim (Bool-cases a.irq_ok) [
    | inr i ↦ rw (v, i, events_init) refl
    | inl i ↦ rw (v, i, events_init) refl
  ]
]

-- a request that is granted
pub events_init-granted :
    (a : IrqAnswers) (m : Mxbl)
    → a.vectors_ok ≡ true
    → a.irq_ok ≡ true
    → (events_init a m).1.1 ≡ true
unfolding events_init pci_irq_init
events_init-granted a m v i = rw (v, i, events_init) refl

events_init-vectors :
    (a : IrqAnswers) (m : Mxbl) → (events_init a m).1.1 ≡ true → a.vectors_ok ≡ true
unfolding events_init pci_irq_init
events_init-vectors a m e = elim (Bool-cases a.vectors_ok) [
  | inl v ↦ v
  | inr v ↦
      let refused : (events_init a m).1.1 ≡ false = rw (v, events_init) refl in
      absurd (cc (refused, e))
]

pub events_init-both :
    (a : IrqAnswers) (m : Mxbl)
    → (events_init a m).1.1 ≡ true
    → books (events_init a m).0 mapped ≡ some (up false)
events_init-both a m ok =
    events_init-books a m mapped
    ∙ ap (λ b. some (record mapped { vectors = b; irq = (events_init a m).1.1 }))
        (events_init-vectors a m ok)
    ∙ ap (λ b. some (record mapped { vectors = true; irq = b })) ok

pub chrdev_remove-books : (m : Mxbl) → books (chrdev_remove m).0 (up m.added) ≡ some (up false)
unfolding books chrdev_remove
chrdev_remove-books m = elim (Bool-cases m.added) [
  | inl e ↦ rw (e, chrdev_remove) refl
  | inr e ↦ rw (e, chrdev_remove) refl
]

chrdev_add-books :
    (node_ok cdev_ok : Bool) (m : Mxbl)
    → let e = chrdev_add node_ok cdev_ok m in books e.0 (up m.added) ≡ some (up e.1.0.added)
unfolding books chrdev_add
chrdev_add-books node_ok cdev_ok m = elim (Bool-cases m.added) [
  | inl e ↦ rw (e, chrdev_add) refl
  | inr e ↦ elim (Bool-cases node_ok) [
    | inr n ↦ rw (e, n, chrdev_add) refl
    | inl n ↦ elim (Bool-cases cdev_ok) [
      | inr c ↦ rw (e, n, c, chrdev_add) refl
      | inl c ↦ rw (e, n, c, chrdev_add) refl
    ]
  ]
]

-- the device node's part of the set-up
abbrev node : LoaderAnswers → Mxbl → Run (Mxbl × AddStatus)
node a m =
    if is_boot m.mmio && not m.added
    then chrdev_add a.node_ok a.cdev_ok m
    else return (m, add_eexist)

node-books :
    (a : LoaderAnswers) (m : Mxbl)
    → books (node a m).0 (up m.added) ≡ some (up (node a m).1.0.added)
unfolding books
node-books a m = elim (Bool-cases (is_boot m.mmio && not m.added)) [
  | inl e ↦ rw e (chrdev_add-books a.node_ok a.cdev_ok m)
  | inr e ↦ rw e refl
]

chrdev_add-units :
    (node_ok cdev_ok : Bool) (m : Mxbl)
    → (chrdev_add node_ok cdev_ok m).1.0.units_found ≡ m.units_found
unfolding chrdev_add
chrdev_add-units node_ok cdev_ok m = elim (Bool-cases m.added) [
  | inl e ↦ rw (e, chrdev_add) refl
  | inr e ↦ elim (Bool-cases node_ok) [
    | inr n ↦ rw (e, n, chrdev_add) refl
    | inl n ↦ elim (Bool-cases cdev_ok) [
      | inr c ↦ rw (e, n, c, chrdev_add) refl
      | inl c ↦ rw (e, n, c, chrdev_add) refl
    ]
  ]
]

node-units : (a : LoaderAnswers) (m : Mxbl) → (node a m).1.0.units_found ≡ m.units_found
node-units a m = elim (Bool-cases (is_boot m.mmio && not m.added)) [
  | inl e ↦ rw e (chrdev_add-units a.node_ok a.cdev_ok m)
  | inr e ↦ rw e refl
]

pub events_init-same :
    (a : IrqAnswers) (m : Mxbl)
    → ((events_init a m).1.0.added ≡ m.added) × ((events_init a m).1.0.units_found ≡ m.units_found)
unfolding events_init
events_init-same a m = elim (Bool-cases (pci_irq_init a.vectors_ok a.irq_ok).1) [
  | inl e ↦ rw (e, events_init) (refl, refl)
  | inr e ↦ rw (e, events_init) (refl, refl)
]

-- What is left held when the set-up has ended: with too many units nothing, though it returns 0.
abbrev pub loader_left : LoaderAnswers → Bool → LoaderStatus → Bool → Held
loader_left a few loader_ok added = if few then up added else bare
loader_left a few loader_einval added = record bare { char_device = added }
loader_left a few loader_pci added = record bare { mapping = was_mapped a.pci; char_device = added }
loader_left a few loader_events added = record bare {
  vectors = a.irq.vectors_ok;
  char_device = added;
}
loader_left a few loader_reset added = record bare { char_device = added }

-- A part of the set-up that starts with `h` held ends as its status says.
abbrev pub Ends : LoaderAnswers → Bool → Held → Run (Mxbl × LoaderStatus) → Type 0
Ends a few h r = books r.0 h ≡ some (loader_left a few r.1.1 r.1.0.added)

abbrev numbered : Mxbl → Mxbl
numbered m = record m { unit = m.units_found; units_found = m.units_found + 1 }

module _ (a : LoaderAnswers) (m : Mxbl) where
  abbrev with_unit : Mxbl
  with_unit = numbered (node a m).1.0

  abbrev quiet : Mxbl
  quiet = (events_cleanup with_unit).1

  init_unit-few :
      ltb (node a m).1.0.units_found max_devices ≡ true
      → init_unit a m ≡ ((node a m).0 ++ [], (with_unit, loader_ok))
  unfolding init_unit
  init_unit-few e = rw e refl

  init_unit-many :
      ltb (node a m).1.0.units_found max_devices ≡ false
      → init_unit a m ≡ (
        (node a m).0
            ++ ((events_cleanup with_unit).0 ++ ((chrdev_remove quiet).0 ++ (pci_cleanup ++ []))),
        ((chrdev_remove quiet).1, loader_ok),
      )
  unfolding init_unit
  init_unit-many e = rw e refl

  pub init_unit-ok : (init_unit a m).1.1 ≡ loader_ok
  init_unit-ok = elim (Bool-cases (ltb (node a m).1.0.units_found max_devices)) [
    | inl e ↦ ap (λ r. r.1.1) (init_unit-few e)
    | inr e ↦ ap (λ r. r.1.1) (init_unit-many e)
  ]

  removed-books :
      books
        ((chrdev_remove quiet).0 ++ (pci_cleanup ++ []))
        (record (up with_unit.added) { vectors = false; irq = false })
      ≡ some bare
  unfolding books chrdev_remove events_cleanup
  removed-books = elim (Bool-cases (node a m).1.0.added) [
    | inl e ↦ rw (e, chrdev_remove) refl
    | inr e ↦ rw (e, chrdev_remove) refl
  ]

  pub init_unit-Ends : Ends a (ltb m.units_found max_devices) (up m.added) (init_unit a m)
  unfolding books
  init_unit-Ends =
      let few = ltb m.units_found max_devices in
      let same = ap (λ u. ltb u max_devices) (node-units a m) in
      elim (Bool-cases few) [
        | inl e ↦ subst (Ends a few (up m.added)) (sym (init_unit-few (same ∙ e))) (
            books-append (node a m).0 [] (up m.added) (up with_unit.added) (node-books a m)
            ∙ ap (λ b. some (if b then up with_unit.added else bare)) (sym e))
        | inr e ↦
            let rest = (chrdev_remove quiet).0 ++ (pci_cleanup ++ []) in
            subst (Ends a few (up m.added)) (sym (init_unit-many (same ∙ e))) (
              books-append (node a m).0 ((events_cleanup with_unit).0 ++ rest) (up m.added)
                (up with_unit.added) (node-books a m)
              ∙ books-append (events_cleanup with_unit).0 rest (up with_unit.added)
                  (record (up with_unit.added) { vectors = false; irq = false })
                  (events_cleanup-books with_unit (up with_unit.added))
              ∙ removed-books
              ∙ ap (λ b. some (if b then up (chrdev_remove quiet).1.added else bare)) (sym e))
      ]
