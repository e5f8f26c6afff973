-- ===== src/Serial/Admin/Cycle.antt =====
-- serial/mxlk/mxlk_core.c and mxlk_main.c: the lives of an instance, as sequences of the calls that the
-- kernel and the users make.
use pcie_host_driver.Prelude.{
  ℕ, ◌≡◌, ◌≢◌, ◌⊎◌, refl, ap, subst, ◌∙◌, inl, inr, Bool, true, false, Bool-cases, some, List, ◌++◌,
}
use pcie_host_driver.Mmio.{Bytes}
use pcie_host_driver.Common.Effects.{Act, Held, Run, return, nothing}
use pcie_host_driver.Common.Effects.Ledger.{books, books-append}
use pcie_host_driver.Common.Opmode.{
  Opmode, unknown, boot, loader, app_vpual, app_vpulink, get_opmode,
}
use pcie_host_driver.Common.Reset.{restore_and_check_device}
use pcie_host_driver.Serial.Comms.{Port, ring_doorbell}
use pcie_host_driver.Serial.Control.{
  CoreAnswers, CoreStatus, core_ok, core_eperm, core_eio, core_init, is_mode,
}
use pcie_host_driver.Serial.Control.Init.{up, wired_port}
use pcie_host_driver.Serial.Admin.{
  interrupt, send_doorbell_handler, ResetAnswers, reset_lost, reset_by, reset_dev, BootAnswers,
  boot_dev, probe,
}
use pcie_host_driver.Serial.Admin.Outcomes.{
  reset_ends, reset_outcome, lost_outcome, reset_by-books, reset_lost-gone,
}
use pcie_host_driver.Serial.Admin.Booted.{boots_app, boot_dev-refused, boot_dev-ok}
use pcie_host_driver.Serial.Admin.Life.{probe_left, probe-books}

-- The life of an instance: whether its communications are started, and its acts so far. The calls see
-- whatever the device and the handlers have made of the instance's state, so a call starts from any
-- port; the device is reset from its application, or lost, only while communications are started, and
-- it is booted only while they are not.
pub data Life : Bool → List Act → Type 0 where
  probed :
      (a : CoreAnswers) (units : ℕ) (p : Port)
      → (core_init a units p).0.1.1 ≡ core_ok
      → Life (is_mode app_vpulink (wired_port a units p).link.mmio) (probe true a units p).0.0
  interrupted :
      {running : Bool} {acts : List Act} (p : Port)
      → Life running acts
      → Life running (acts ++ (interrupt p).0)
  rang :
      {running : Bool} {acts : List Act} (p : Port)
      → Life running acts
      → Life running (acts ++ (send_doorbell_handler p).0)
  unmoved :
      {running : Bool} {acts : List Act} (a : ResetAnswers) (p : Port)
      → (get_opmode p.link.mmio ≡ boot) ⊎ (get_opmode p.link.mmio ≡ loader)
      → Life running acts
      → Life running (acts ++ (reset_dev a p).0)
  reset :
      {acts : List Act} (a : ResetAnswers) (p : Port)
      → get_opmode p.link.mmio ≢ boot
      → (reset_dev a p).1.1 ≡ core_ok
      → Life true acts
      → Life false (acts ++ (reset_dev a p).0)
  refused :
      {running : Bool} {acts : List Act} (a : BootAnswers) (p : Port) (image : Bytes)
      (r : Run (Port × CoreStatus))
      → is_mode boot p.link.mmio ≡ false
      → boot_dev a p image ≡ some r
      → Life running acts
      → Life running (acts ++ r.0)
  booted :
      {acts : List Act} (a : BootAnswers) (p : Port) (image : Bytes) (r : Run (Port × CoreStatus))
      → boot_dev a p image ≡ some r
      → r.1.1 ≡ core_ok
      → Life false acts
      → Life (boots_app a p image) (acts ++ r.0)

interrupt-books : (p : Port) (h : Held) → books (interrupt p).0 h ≡ some h
unfolding books interrupt
interrupt-books p h = by_mode (get_opmode p.link.mmio) refl
  where
    by_mode : (mode : Opmode) → get_opmode p.link.mmio ≡ mode → books (interrupt p).0 h ≡ some h
    by_mode boot e = rw (e, interrupt) refl
    by_mode unknown e = rw (e, interrupt) refl
    by_mode loader e = rw (e, interrupt) refl
    by_mode app_vpual e = rw (e, interrupt) refl
    by_mode app_vpulink e = rw (e, interrupt) refl

doorbell-books : (p : Port) (h : Held) → books (send_doorbell_handler p).0 h ≡ some h
unfolding books send_doorbell_handler ring_doorbell
doorbell-books p h = refl

-- a reset that succeeds and is not from the boot mode
reset_ok-books :
    (mode : Opmode) (a : ResetAnswers) (p : Port)
    → mode ≢ boot
    → (reset_by mode a p).1.1 ≡ core_ok
    → books (reset_by mode a p).0 (up true) ≡ some (up false)
unfolding reset_by
reset_ok-books boot a p ne ok = absurd (ne refl)
reset_ok-books loader a p ne ok = absurd (cc ok)
reset_ok-books app_vpual a p ne ok =
    reset_by-books app_vpual a p true ∙ ap (reset_outcome a true) ok
reset_ok-books app_vpulink a p ne ok =
    reset_by-books app_vpulink a p true ∙ ap (reset_outcome a true) ok
reset_ok-books unknown a p ne ok = elim (Bool-cases (restore_and_check_device a.restored).1) [
  | inr gone ↦
      let failed : (reset_lost a p).1.1 ≡ core_eio = ap (λ r. r.1.1) (reset_lost-gone a p gone) in
      absurd (cc (failed, ok))
  | inl back ↦
      reset_by-books unknown a p true
      ∙ ap (λ b. lost_outcome a b true (reset_lost a p).1.1) back
      ∙ ap (reset_outcome a true) ok
]

-- a reset in boot mode or in the loader
reset_unmoved-books :
    (mode : Opmode) (a : ResetAnswers) (p : Port) (running : Bool)
    → (mode ≡ boot) ⊎ (mode ≡ loader)
    → books (reset_by mode a p).0 (up running) ≡ some (up running)
reset_unmoved-books mode a p running (inl e) =
    reset_by-books mode a p running ∙ ap (λ k. reset_ends a k running (reset_by mode a p).1.1) e
reset_unmoved-books mode a p running (inr e) =
    reset_by-books mode a p running ∙ ap (λ k. reset_ends a k running (reset_by mode a p).1.1) e

boot_refused-books :
    (a : BootAnswers) (p : Port) (image : Bytes) (r : Run (Port × CoreStatus)) (h : Held)
    → is_mode boot p.link.mmio ≡ false
    → boot_dev a p image ≡ some r
    → books r.0 h ≡ some h
unfolding books
boot_refused-books a p image r h m is =
    let e : return (p, core_eperm) ≡ r = cc (boot_dev-refused a p image m, is) in
    subst (λ k. books k.0 h ≡ some h) e refl

-- All through its life an instance holds exactly what it needs: no call acquires twice or releases
-- what is not held.
pub Life-books :
    (running : Bool) (acts : List Act) → Life running acts → books acts nothing ≡ some (up running)
Life-books _ _ (probed a units p ok) =
    let running = is_mode app_vpulink (wired_port a units p).link.mmio in
    probe-books a units p ∙ ap (λ s. some (probe_left a running s)) ok
Life-books running _ (interrupted {acts = acts} p l) =
    books-append acts (interrupt p).0 nothing (up running) (Life-books running acts l)
    ∙ interrupt-books p (up running)
Life-books running _ (rang {acts = acts} p l) =
    books-append acts (send_doorbell_handler p).0 nothing (up running) (Life-books running acts l)
    ∙ doorbell-books p (up running)
Life-books running _ (unmoved {acts = acts} a p mode l) =
    books-append acts (reset_dev a p).0 nothing (up running) (Life-books running acts l)
    ∙ reset_unmoved-books (get_opmode p.link.mmio) a p running mode
Life-books _ _ (reset {acts = acts} a p ne ok l) =
    books-append acts (reset_dev a p).0 nothing (up true) (Life-books true acts l)
    ∙ reset_ok-books (get_opmode p.link.mmio) a p ne ok
Life-books running _ (refused {acts = acts} a p image r m is l) =
    books-append acts r.0 nothing (up running) (Life-books running acts l)
    ∙ boot_refused-books a p image r (up running) m is
Life-books _ _ (booted {acts = acts} a p image r is ok l) =
    books-append acts r.0 nothing (up false) (Life-books false acts l)
    ∙ boot_dev-ok a p image r is ok
