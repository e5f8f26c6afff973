-- ===== src/Loader/Life.antt =====
-- boot/mxbl/mxbl_core.c and mxbl_main.c: the life of an instance of the loader.
use pcie_host_driver.Prelude.{
  ◌≤◌, ◌<◌, ◌≡◌, refl, sym, ap, subst, ◌∙◌, true, false, none, some, [], ◌∷◌, ◌++◌, inl, inr, ltb,
  lt→ltb, le→ltb-false, Bool-cases, if◌then◌else◌,
}
use pcie_host_driver.Common.Effects.{nothing, return, release, instance_memory}
use pcie_host_driver.Common.Effects.Ledger.{books, books-append}
use pcie_host_driver.Common.Pci.{pci_init, pci_cleanup}
use pcie_host_driver.Common.Pci.Balance.{was_mapped, pci_init-books, pci_init-mapped}
use pcie_host_driver.Common.Reset.{reset_device}
use pcie_host_driver.Loader.{
  Mxbl, events_cleanup, chrdev_remove, LoaderAnswers, loader_ok, loader_einval, loader_pci,
  max_devices, init_events, core_init, core_cleanup, probe, remove,
}
use pcie_host_driver.Loader.Init.{
  bare, mapped, up, events_cleanup-books, chrdev_remove-books, loader_left, Ends,
}
use pcie_host_driver.Loader.Restart.{init_events-ok, init_events-Goes}

-- the structure as kzalloc has made it
abbrev pub zeroed : Mxbl → Mxbl
zeroed m = record m { unit = 0; added = false; minor = 0 }

-- The second request of the interrupt, whose outcome is not looked at, is granted.
abbrev pub AgainGranted : LoaderAnswers → Type 0
AgainGranted a = (a.irq_again.vectors_ok ≡ true) × (a.irq_again.irq_ok ≡ true)

module _ (a : LoaderAnswers) (m : Mxbl) where
  core_init-wq : a.has_wq ≡ false → core_init a m ≡ return (m, loader_einval)
  unfolding core_init
  core_init-wq e = rw e refl

  core_init-no_pci : a.has_wq ≡ true → a.has_pci ≡ false → core_init a m ≡ return (m, loader_einval)
  unfolding core_init
  core_init-no_pci w e = rw (w, e) refl

  core_init-refused :
      a.has_wq ≡ true
      → a.has_pci ≡ true
      → (pci_init a.pci).1 ≡ false
      → core_init a m ≡ ((pci_init a.pci).0 ++ [], (m, loader_pci))
  unfolding core_init
  core_init-refused w p e = rw (w, p) (rw e refl)

  core_init-up :
      a.has_wq ≡ true
      → a.has_pci ≡ true
      → (pci_init a.pci).1 ≡ true
      → let r = init_events a m in core_init a m ≡ ((pci_init a.pci).0 ++ r.0, r.1)
  unfolding core_init
  core_init-up w p e = rw (w, p) (rw e refl)

-- The set-up of a fresh instance releases only what it holds. When it fails, nothing is held but the
-- mapping or the vectors that a refused call has left; when it returns 0, all is held, or nothing where
-- there are eight instances before.
pub core_init-Ends :
    (a : LoaderAnswers) (m : Mxbl)
    → AgainGranted a
    → Ends a (ltb m.units_found max_devices) bare (core_init a (zeroed m))
unfolding books
core_init-Ends a m again =
    let k = zeroed m in
    let few = ltb m.units_found max_devices in
    let pci = pci_init a.pci in
    elim (Bool-cases a.has_wq) [
      | inr w ↦ subst (Ends a few bare) (sym (core_init-wq a k w)) refl
      | inl w ↦ elim (Bool-cases a.has_pci) [
        | inr p ↦ subst (Ends a few bare) (sym (core_init-no_pci a k w p)) refl
        | inl p ↦ elim (Bool-cases pci.1) [
          | inr e ↦ subst (Ends a few bare) (sym (core_init-refused a k w p e)) (
              books-append pci.0 [] bare (record bare { mapping = was_mapped a.pci })
                (pci_init-books a.pci bare
                  ∙ ap
                      (λ b.
                        some (record bare { device = b; regions = b; mapping = was_mapped a.pci }))
                      e))
          | inl e ↦
              let r = init_events a k in
              subst (Ends a few bare) (sym (core_init-up a k w p e)) (
                books-append pci.0 r.0 bare mapped (
                  pci_init-books a.pci bare
                  ∙ ap
                      (λ b.
                        some (record bare { device = b; regions = b; mapping = was_mapped a.pci }))
                      e
                  ∙ ap (λ b. some (record mapped { mapping = b })) (pci_init-mapped a.pci e))
                ∙ init_events-Goes a again k refl)
        ]
      ]
    ]

core_cleanup-books : (q : Mxbl) → books (core_cleanup q).0 (up q.added) ≡ some bare
unfolding books core_cleanup
core_cleanup-books q =
    let r = chrdev_remove q in
    let e = events_cleanup r.1 in
    books-append r.0 (e.0 ++ (pci_cleanup ++ [])) (up q.added) (up false) (chrdev_remove-books q)
    ∙ books-append e.0 (pci_cleanup ++ []) (up false) mapped (events_cleanup-books r.1 (up false))

remove-books : (q : Mxbl) → books (remove q).0 (up q.added) ≡ some nothing
unfolding books remove
remove-books q =
    books-append (core_cleanup q).0 (release instance_memory ∷ []) (up q.added) bare
      (core_cleanup-books q)

-- a removal with nothing but the structure held
remove-fault : (q : Mxbl) → books (remove q).0 bare ≡ none
unfolding books remove core_cleanup chrdev_remove events_cleanup
remove-fault q = elim (Bool-cases q.added) [
  | inl e ↦ rw (e, chrdev_remove) refl
  | inr e ↦ rw (e, chrdev_remove) refl
]

probe-books :
    (a : LoaderAnswers) (m : Mxbl)
    → AgainGranted a
    → (core_init a (zeroed m)).1.1 ≡ loader_ok
    → books (probe true a (zeroed m)).0 nothing
      ≡ some (if ltb m.units_found max_devices then up (core_init a (zeroed m)).1.0.added else bare)
unfolding books probe
probe-books a m again ok =
    let r = core_init a (zeroed m) in
    let few = ltb m.units_found max_devices in
    books-append r.0 [] bare (loader_left a few r.1.1 r.1.0.added) (core_init-Ends a m again)
    ∙ ap (λ s. some (loader_left a few s r.1.0.added)) ok

-- An instance that is probed with 0 returned, with fewer than eight before it and the second request
-- of the interrupt granted, should a reset make one, and that is later removed, with its device node
-- as the probe has left it, holds nothing in the end.
pub probe-remove_few :
    (a : LoaderAnswers) (m q : Mxbl)
    → AgainGranted a
    → (core_init a (zeroed m)).1.1 ≡ loader_ok
    → m.units_found < max_devices
    → q.added ≡ (core_init a (zeroed m)).1.0.added
    → books ((probe true a (zeroed m)).0 ++ (remove q).0) nothing ≡ some nothing
probe-remove_few a m q again ok room same =
    let b = (core_init a (zeroed m)).1.0.added in
    books-append (probe true a (zeroed m)).0 (remove q).0 nothing (up q.added) (
      probe-books a m again ok
      ∙ ap (λ f. some (if f then up b else bare)) (lt→ltb m.units_found max_devices room)
      ∙ ap (λ c. some (up c)) (sym same))
    ∙ remove-books q

-- All that the set-up asks for is granted: the work queue, the device, its resources, both requests of
-- the interrupt, and a reset, should the device need one.
pub record LoaderGranted (a : LoaderAnswers) : Type 0 where
  pub wq : a.has_wq ≡ true
  pub dev : a.has_pci ≡ true
  pub function : (pci_init a.pci).1 ≡ true
  pub vectors : a.irq.vectors_ok ≡ true
  pub irq : a.irq.irq_ok ≡ true
  pub reset : (reset_device a.revived).1 ≡ true
  pub again : AgainGranted a

core_init-granted :
    (a : LoaderAnswers) (m : Mxbl) → LoaderGranted a → (core_init a (zeroed m)).1.1 ≡ loader_ok
core_init-granted a m g =
    ap (λ r. r.1.1) (core_init-up a (zeroed m) g.wq g.dev g.function)
    ∙ init_events-ok a g.again (zeroed m) g.vectors g.irq g.reset

probe-status : (a : LoaderAnswers) (m : Mxbl) → (probe true a m).1.1 ≡ some (core_init a m).1.1
unfolding probe
probe-status a m = refl

-- Where all that the set-up asks for is granted, with both requests of the interrupt, the probe of a
-- ninth instance gives everything up and yet returns 0; its removal then releases what is not held.
pub probe_full :
    (a : LoaderAnswers) (m q : Mxbl)
    → LoaderGranted a
    → max_devices ≤ m.units_found
    → ((probe true a (zeroed m)).1.1 ≡ some loader_ok)
      × (books (probe true a (zeroed m)).0 nothing ≡ some bare)
      × (books ((probe true a (zeroed m)).0 ++ (remove q).0) nothing ≡ none)
probe_full a m q g full =
    let b = (core_init a (zeroed m)).1.0.added in
    let ok = core_init-granted a m g in
    let gone =
      probe-books a m g.again ok
      ∙ ap (λ f. some (if f then up b else bare)) (le→ltb-false m.units_found max_devices full) in
    (
      probe-status a (zeroed m) ∙ ap some ok,
      gone,
      books-append (probe true a (zeroed m)).0 (remove q).0 nothing bare gone ∙ remove-fault q,
    )
