-- ===== src/Serial/Admin/Outcomes.antt =====
-- serial/mxlk/mxlk_core.c: what is held after a reset, on each of its ways out.
use pcie_host_driver.Prelude.{
  ◌≡◌, refl, sym, subst, ◌∙◌, Bool, true, false, Option, none, some, List, [], ◌∷◌, ◌++◌, inl, inr,
  Bool-cases,
}
use pcie_host_driver.Common.Effects.{Held, Run, Act, lock_device, unlock_device}
use pcie_host_driver.Common.Effects.Ledger.{books, books-append}
use pcie_host_driver.Common.Opmode.{
  Opmode, unknown, boot, loader, app_vpual, app_vpulink, get_opmode,
}
use pcie_host_driver.Common.Pci.{dev_ctx_save}
use pcie_host_driver.Common.Reset.{restore_and_check_device, reset_device}
use pcie_host_driver.Common.Reset.Sequence.{reset_device-ResetDone, restore_and_check_device-books}
use pcie_host_driver.Serial.Comms.{Port, comms_cleanup}
use pcie_host_driver.Serial.Control.{
  with_mmio, events_init, events_cleanup, CoreStatus, core_ok, core_events, core_eio,
}
use pcie_host_driver.Serial.Control.Init.{up, events_init-granted, events_init-refused}
use pcie_host_driver.Serial.Admin.{
  ResetAnswers, quiesce, resume, reset_app, reset_lost, reset_by, reset_dev,
}

-- an instance without communications and without its interrupt
abbrev pub stopped : Held
stopped = record (up false) { vectors = false; irq = false }

-- What is held after everything has been stopped and set up again, as far as the status says; `none` for
-- a release of what is not held, when communications are not started before.
abbrev pub reset_outcome : ResetAnswers → Bool → CoreStatus → Option Held
reset_outcome a false s = none
reset_outcome a true core_ok = some (up false)
reset_outcome a true core_events = some (record stopped { vectors = a.irq.vectors_ok })
reset_outcome a true _ = some stopped

module _ (a : ResetAnswers) where
  quiesce-books : (p : Port) → books (quiesce p).0 (up true) ≡ some stopped
  unfolding books quiesce comms_cleanup events_cleanup
  quiesce-books p = refl

  resume-ok :
      (p : Port)
      → (events_init a.irq p).1.1 ≡ true
      → let e = events_init a.irq p in resume a p ≡ (e.0 ++ (dev_ctx_save ∷ []), (e.1.0, core_ok))
  unfolding resume
  resume-ok p ok = rw ok refl

  resume-refused :
      (p : Port)
      → (events_init a.irq p).1.1 ≡ false
      → let e = events_init a.irq p in resume a p ≡ (e.0 ++ [], (e.1.0, core_events))
  unfolding resume
  resume-refused p e = rw e refl

  -- a run that starts with nothing but its device node and its PCI function
  abbrev Resumes : Run (Port × CoreStatus) → Type 0
  Resumes r = books r.0 stopped ≡ reset_outcome a true r.1.1

  resume-Resumes : (p : Port) → Resumes (resume a p)
  unfolding books
  resume-Resumes p =
      let e = events_init a.irq p in
      elim (Bool-cases e.1.1) [
        | inl ok ↦ subst Resumes (sym (resume-ok p ok)) (
            books-append e.0 (dev_ctx_save ∷ []) stopped (up false)
              (events_init-granted a.irq p stopped ok))
        | inr refused ↦ subst Resumes (sym (resume-refused p refused)) (
            books-append e.0 [] stopped (record stopped { vectors = a.irq.vectors_ok })
              (events_init-refused a.irq p stopped refused))
      ]

  reset_app-ok :
      (p : Port)
      → (reset_device a.revived).1 ≡ true
      → let r = resume a (with_mmio (quiesce p).1 a.revived.mmio) in
        reset_app a p ≡ (
          (quiesce p).0 ++ (lock_device ∷ ((reset_device a.revived).0 ++ (unlock_device ∷ r.0))),
          r.1,
        )
  unfolding reset_app
  reset_app-ok p ok = rw ok refl

  reset_app-failed :
      (p : Port)
      → (reset_device a.revived).1 ≡ false
      → reset_app a p ≡ (
        (quiesce p).0 ++ (lock_device ∷ ((reset_device a.revived).0 ++ (unlock_device ∷ []))),
        (with_mmio (quiesce p).1 a.revived.mmio, core_eio),
      )
  unfolding reset_app
  reset_app-failed p e = rw e refl

  -- a reset between the two locks, and what follows
  locked-books :
      (acts : List Act)
      → books (lock_device ∷ ((reset_device a.revived).0 ++ (unlock_device ∷ acts))) stopped
        ≡ books acts stopped
  unfolding books
  locked-books acts =
      books-append (reset_device a.revived).0 (unlock_device ∷ acts) stopped stopped
        (reset_device-ResetDone a.revived stopped).held

  -- a run that begins with what a started driver holds
  abbrev Ends : Bool → Run (Port × CoreStatus) → Type 0
  Ends running r = books r.0 (up running) ≡ reset_outcome a running r.1.1

  reset_app-Ends : (p : Port) (running : Bool) → Ends running (reset_app a p)
  unfolding books reset_app quiesce comms_cleanup
  reset_app-Ends p false = refl
  reset_app-Ends p true = elim (Bool-cases (reset_device a.revived).1) [
    | inl ok ↦
        let r = resume a (with_mmio (quiesce p).1 a.revived.mmio) in
        let acts = lock_device ∷ ((reset_device a.revived).0 ++ (unlock_device ∷ r.0)) in
        subst (Ends true) (sym (reset_app-ok p ok)) (
          books-append (quiesce p).0 acts (up true) stopped (quiesce-books p)
          ∙ locked-books r.0
          ∙ resume-Resumes (with_mmio (quiesce p).1 a.revived.mmio))
    | inr refused ↦
        let acts = lock_device ∷ ((reset_device a.revived).0 ++ (unlock_device ∷ [])) in
        subst (Ends true) (sym (reset_app-failed p refused))
          (books-append (quiesce p).0 acts (up true) stopped (quiesce-books p) ∙ locked-books [])
  ]

  reset_lost-back :
      (p : Port)
      → (restore_and_check_device a.restored).1 ≡ true
      → let q = (quiesce (with_mmio p a.restored.mmio)).1 in
        let r = resume a q in
        reset_lost a p ≡ (
          (restore_and_check_device a.restored).0
              ++ ((quiesce (with_mmio p a.restored.mmio)).0 ++ r.0),
          r.1,
        )
  unfolding reset_lost
  reset_lost-back p ok = rw ok refl

  pub reset_lost-gone :
      (p : Port)
      → (restore_and_check_device a.restored).1 ≡ false
      → reset_lost a p
        ≡ ((restore_and_check_device a.restored).0 ++ [], (with_mmio p a.restored.mmio, core_eio))
  unfolding reset_lost
  reset_lost-gone p e = rw e refl

  quiesce-fault : (p : Port) (acts : List Act) → books ((quiesce p).0 ++ acts) (up false) ≡ none
  unfolding books quiesce comms_cleanup
  quiesce-fault p acts = refl

  -- what is held after the device was lost, by whether it is back
  abbrev pub lost_outcome : Bool → Bool → CoreStatus → Option Held
  lost_outcome false running s = some (up running)
  lost_outcome true running s = reset_outcome a running s

  abbrev LostEnds : Bool → Bool → Run (Port × CoreStatus) → Type 0
  LostEnds back running r = books r.0 (up running) ≡ lost_outcome back running r.1.1

  abbrev is_back : Bool
  is_back = (restore_and_check_device a.restored).1

  restored-books :
      (acts : List Act) (h : Held)
      → books ((restore_and_check_device a.restored).0 ++ acts) h ≡ books acts h
  restored-books acts h =
      books-append (restore_and_check_device a.restored).0 acts h h
        (restore_and_check_device-books a.restored h)

  back-Ends : (p : Port) (running : Bool) → is_back ≡ true → Ends running (reset_lost a p)
  back-Ends p false ok =
      let m = with_mmio p a.restored.mmio in
      let r = resume a (quiesce m).1 in
      subst (Ends false) (sym (reset_lost-back p ok))
        (restored-books ((quiesce m).0 ++ r.0) (up false) ∙ quiesce-fault m r.0)
  back-Ends p true ok =
      let m = with_mmio p a.restored.mmio in
      let r = resume a (quiesce m).1 in
      subst (Ends true) (sym (reset_lost-back p ok)) (
        restored-books ((quiesce m).0 ++ r.0) (up true)
        ∙ books-append (quiesce m).0 r.0 (up true) stopped (quiesce-books m)
        ∙ resume-Resumes (quiesce m).1)

  reset_lost-LostEnds : (p : Port) (running : Bool) → LostEnds is_back running (reset_lost a p)
  unfolding books
  reset_lost-LostEnds p running = elim (Bool-cases is_back) [
    | inl ok ↦ subst (λ b. LostEnds b running (reset_lost a p)) (sym ok) (back-Ends p running ok)
    | inr gone ↦
        subst (λ b. LostEnds b running (reset_lost a p)) (sym gone)
          (subst (LostEnds false running) (sym (reset_lost-gone p gone))
            (restored-books [] (up running)))
  ]

-- what is held after a reset in each mode of the device
abbrev pub reset_ends : ResetAnswers → Opmode → Bool → CoreStatus → Option Held
reset_ends a boot running s = some (up running)
reset_ends a loader running s = some (up running)
reset_ends a unknown running s = lost_outcome a (restore_and_check_device a.restored).1 running s
reset_ends a app_vpual running s = reset_outcome a running s
reset_ends a app_vpulink running s = reset_outcome a running s

pub reset_by-books :
    (mode : Opmode) (a : ResetAnswers) (p : Port) (running : Bool)
    → let r = reset_by mode a p in books r.0 (up running) ≡ reset_ends a mode running r.1.1
unfolding reset_by books
reset_by-books boot a p running = refl
reset_by-books loader a p running = refl
reset_by-books unknown a p running = reset_lost-LostEnds a p running
reset_by-books app_vpual a p running = reset_app-Ends a p running
reset_by-books app_vpulink a p running = reset_app-Ends a p running

-- A reset leaves all as it is in boot mode, in the loader, and when a lost device does not come back.
-- Else, with communications started, they are given up, and the interrupt is held again as far as the
-- status says; without them, what is not held is released.
pub reset_dev-books :
    (a : ResetAnswers) (p : Port) (running : Bool)
    → let r = reset_dev a p in
      books r.0 (up running) ≡ reset_ends a (get_opmode p.link.mmio) running r.1.1
reset_dev-books a p running = reset_by-books (get_opmode p.link.mmio) a p running
