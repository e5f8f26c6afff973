-- ===== src/Loader/Restart.antt =====
-- boot/mxbl/mxbl_core.c: the set-up of the loader's interrupt, and the reset of a device that is not in
-- boot mode.
use pcie_host_driver.Prelude.{
  ◌≡◌, refl, sym, ap, subst, ◌∙◌, Bool, true, false, some, List, [], ◌++◌, inl, inr, ltb,
  Bool-cases,
}
use pcie_host_driver.Common.Effects.{Held, Run, Act}
use pcie_host_driver.Common.Effects.Ledger.{books, books-append}
use pcie_host_driver.Common.Pci.{pci_cleanup}
use pcie_host_driver.Common.Reset.{reset_device}
use pcie_host_driver.Common.Reset.Sequence.{reset_device-ResetDone}
use pcie_host_driver.Loader.{
  Mxbl, is_boot, events_init, events_cleanup, LoaderAnswers, LoaderStatus, loader_ok, loader_events,
  loader_reset, max_devices, init_unit, init_reset, init_events,
}
use pcie_host_driver.Loader.Init.{
  bare, mapped, up, events_init-books, events_init-both, events_init-granted, events_cleanup-books,
  events_init-same, Ends, init_unit-ok, init_unit-Ends,
}

module _ (a : LoaderAnswers)
    (again : (a.irq_again.vectors_ok ≡ true) × (a.irq_again.irq_ok ≡ true)) where
  abbrev few : Mxbl → Bool
  few m = ltb m.units_found max_devices

  -- after the reset of a device
  abbrev back : Mxbl → Mxbl
  back m = record (events_cleanup m).1 { mmio = a.revived.mmio }

  init_reset-boot : (m : Mxbl) → is_boot m.mmio ≡ true → init_reset a m ≡ init_unit a m
  unfolding init_reset
  init_reset-boot m b = rw b refl

  init_reset-done :
      (m : Mxbl)
      → is_boot m.mmio ≡ false
      → (reset_device a.revived).1 ≡ true
      → let e = events_init a.irq_again (back m) in
        let r = init_unit a e.1.0 in
        init_reset a m ≡ ((events_cleanup m).0 ++ ((reset_device a.revived).0 ++ (e.0 ++ r.0)), r.1)
  unfolding init_reset
  init_reset-done m b ok = rw b (rw ok refl)

  init_reset-failed :
      (m : Mxbl)
      → is_boot m.mmio ≡ false
      → (reset_device a.revived).1 ≡ false
      → init_reset a m ≡ (
        (events_cleanup m).0 ++ ((reset_device a.revived).0 ++ (pci_cleanup ++ [])),
        (back m, loader_reset),
      )
  unfolding init_reset
  init_reset-failed m b e = rw b (rw e refl)

  reset-books :
      (acts : List Act) (m : Mxbl)
      → books ((events_cleanup m).0 ++ ((reset_device a.revived).0 ++ acts)) (up false)
        ≡ books acts mapped
  reset-books acts m =
      books-append (events_cleanup m).0 ((reset_device a.revived).0 ++ acts) (up false) mapped
        (events_cleanup-books m (up false))
      ∙ books-append (reset_device a.revived).0 acts mapped mapped
          (reset_device-ResetDone a.revived mapped).held

  -- a part that starts with the device node not there
  abbrev Goes : Mxbl → Held → Run (Mxbl × LoaderStatus) → Type 0
  Goes m h r = Ends a (few m) h r

  unit-Goes :
      (m k : Mxbl)
      → m.added ≡ false
      → m.units_found ≡ k.units_found
      → Goes k (up false) (init_unit a m)
  unit-Goes m k fresh same =
      subst (λ u. Ends a (ltb u max_devices) (up false) (init_unit a m)) same
        (subst (λ b. Ends a (few m) (up b) (init_unit a m)) fresh (init_unit-Ends a m))

  init_reset-Goes :
      (m k : Mxbl)
      → m.added ≡ false
      → m.units_found ≡ k.units_found
      → Goes k (up false) (init_reset a m)
  unfolding books events_cleanup
  init_reset-Goes m k fresh same = elim (Bool-cases (is_boot m.mmio)) [
    | inl b ↦ subst (Goes k (up false)) (sym (init_reset-boot m b)) (unit-Goes m k fresh same)
    | inr b ↦ elim (Bool-cases (reset_device a.revived).1) [
      | inl ok ↦
          let e = events_init a.irq_again (back m) in
          let r = init_unit a e.1.0 in
          let (added, units) = events_init-same a.irq_again (back m) in
          let granted = events_init-granted a.irq_again (back m) again.0 again.1 in
          subst (Goes k (up false)) (sym (init_reset-done m b ok)) (
            reset-books (e.0 ++ r.0) m
            ∙ books-append e.0 r.0 mapped (up false) (events_init-both a.irq_again (back m) granted)
            ∙ unit-Goes e.1.0 k (added ∙ fresh) (units ∙ same))
      | inr e ↦ subst (Goes k (up false)) (sym (init_reset-failed m b e)) (
          reset-books (pci_cleanup ++ []) m
          ∙ ap (λ b. some (record bare { char_device = b })) (sym fresh))
    ]
  ]

  init_events-up :
      (m : Mxbl)
      → (events_init a.irq m).1.1 ≡ true
      → let e = events_init a.irq m in
        let r = init_reset a e.1.0 in init_events a m ≡ (e.0 ++ r.0, r.1)
  unfolding init_events
  init_events-up m ok = rw ok refl

  init_events-refused :
      (m : Mxbl)
      → (events_init a.irq m).1.1 ≡ false
      → let e = events_init a.irq m in
        init_events a m ≡ (e.0 ++ (pci_cleanup ++ []), (e.1.0, loader_events))
  unfolding init_events
  init_events-refused m e = rw e refl

  init_reset-ok : (m : Mxbl) → (reset_device a.revived).1 ≡ true → (init_reset a m).1.1 ≡ loader_ok
  init_reset-ok m ok = elim (Bool-cases (is_boot m.mmio)) [
    | inl b ↦ ap (λ r. r.1.1) (init_reset-boot m b) ∙ init_unit-ok a m
    | inr b ↦
        ap (λ r. r.1.1) (init_reset-done m b ok)
        ∙ init_unit-ok a (events_init a.irq_again (back m)).1.0
  ]

  pub init_events-ok :
      (m : Mxbl)
      → a.irq.vectors_ok ≡ true
      → a.irq.irq_ok ≡ true
      → (reset_device a.revived).1 ≡ true
      → (init_events a m).1.1 ≡ loader_ok
  init_events-ok m v i ok =
      ap (λ r. r.1.1) (init_events-up m (events_init-granted a.irq m v i))
      ∙ init_reset-ok (events_init a.irq m).1.0 ok

  pub init_events-Goes : (m : Mxbl) → m.added ≡ false → Goes m mapped (init_events a m)
  unfolding books
  init_events-Goes m fresh =
      let e = events_init a.irq m in
      let (added, units) = events_init-same a.irq m in
      elim (Bool-cases e.1.1) [
        | inl ok ↦
            let r = init_reset a e.1.0 in
            subst (Goes m mapped) (sym (init_events-up m ok)) (
              books-append e.0 r.0 mapped (up false) (events_init-both a.irq m ok)
              ∙ init_reset-Goes e.1.0 m (added ∙ fresh) units)
        | inr refused ↦ subst (Goes m mapped) (sym (init_events-refused m refused)) (
            books-append e.0 (pci_cleanup ++ []) mapped
              (record mapped { vectors = a.irq.vectors_ok; irq = false })
              (events_init-books a.irq m mapped
                ∙ ap (λ b. some (record mapped { vectors = a.irq.vectors_ok; irq = b })) refused)
            ∙ ap (λ b. some (record bare { vectors = a.irq.vectors_ok; char_device = b }))
                (sym (added ∙ fresh)))
      ]
