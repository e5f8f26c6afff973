-- ===== src/Serial/Admin/Booted.antt =====
-- serial/mxlk/mxlk_core.c: what is held after the device is booted.
use pcie_host_driver.Prelude.{
  ◌≡◌, refl, sym, ap, subst, ◌∙◌, Bool, true, false, Option, none, some, List, [], ◌++◌, inl, inr,
  ltb, Bool-cases, Option-cases, if◌then◌else◌, length,
}
use pcie_host_driver.Mmio.{Mem, Bytes}
use pcie_host_driver.Common.Effects.{Held, Run, Act, return}
use pcie_host_driver.Common.Effects.Ledger.{books, books-append}
use pcie_host_driver.Common.Opmode.{boot, app_vpulink}
use pcie_host_driver.Common.Boot.{Sent, max_cont_buffer, load_image}
use pcie_host_driver.Serial.Comms.{Port, CommsStatus, comms_init, comms_cleanup}
use pcie_host_driver.Serial.Comms.Refuse.{is_ok, comms_init-books}
use pcie_host_driver.Serial.Control.{
  with_mmio, is_mode, events_init, events_cleanup, CoreStatus, core_ok, core_eperm, core_pci,
  core_events, core_eio, core_load, core_chrdev, core_comms, core_cleanup, take_down,
}
use pcie_host_driver.Serial.Control.Init.{
  up, events_init-granted, events_init-refused, events_cleanup-books,
}
use pcie_host_driver.Serial.Control.Down.{core_cleanup-app, core_cleanup-other}
use pcie_host_driver.Serial.Admin.{
  BootAnswers, load_acts, boot_comms, boot_up, boot_loaded, boot_dev,
}
use pcie_host_driver.Serial.Admin.Outcomes.{stopped}

-- What is held after the device is booted, by the status, and by whether communications are started.
abbrev pub boot_ends : BootAnswers → Bool → CoreStatus → Held
boot_ends a running core_ok = up running
boot_ends a running core_load = stopped
boot_ends a running core_events = record stopped { vectors = a.irq.vectors_ok }
boot_ends a running core_eperm = up false
boot_ends a running core_pci = up false
boot_ends a running core_eio = up false
boot_ends a running (core_chrdev s) = up false
boot_ends a running (core_comms s) = up false

load_acts-books :
    (src : Bytes) (acts : List Act) (h : Held) → books (load_acts src ++ acts) h ≡ books acts h
unfolding books load_acts
load_acts-books src acts h = elim (Bool-cases (ltb max_cont_buffer (length src))) [
  | inl e ↦ rw (e, load_acts) refl
  | inr e ↦ rw (e, load_acts) refl
]

module _ (a : BootAnswers) where
  abbrev started : Port → Run (Port × CommsStatus)
  started p = comms_init a.grant a.dma a.rx_size a.tx_size p

  -- A run from `h` on, after which communications are started or not; when it succeeds, they are
  -- exactly if the device shows the application's mode.
  abbrev Boots : Bool → Held → Run (Port × CoreStatus) → Type 0
  Boots shown h r =
      (running : Bool) × (books r.0 h ≡ some (boot_ends a running r.1.1))
      × (r.1.1 ≡ core_ok → running ≡ shown)

  abbrev in_app : Port → Bool
  in_app p = is_mode app_vpulink p.link.mmio

  -- the same, once the interrupt is set up
  abbrev wakes_in_app : Port → Bool
  wakes_in_app p = in_app (events_init a.irq p).1.0

  boot_comms-idle :
      (p : Port) → is_mode app_vpulink p.link.mmio ≡ false → boot_comms a p ≡ return (p, core_ok)
  unfolding boot_comms
  boot_comms-idle p m = rw m refl

  boot_comms-runs :
      (p : Port) (b : Bool)
      → is_mode app_vpulink p.link.mmio ≡ true
      → is_ok (started p).1.1 ≡ b
      → let c = started p in
        boot_comms a p ≡ (c.0 ++ [], (c.1.0, if b then core_ok else core_comms c.1.1))
  unfolding boot_comms
  boot_comms-runs p b m k = rw m (rw k refl)

  started-books :
      (p : Port) (b : Bool)
      → is_ok (started p).1.1 ≡ b
      → books ((started p).0 ++ []) (up false) ≡ some (up b)
  unfolding books
  started-books p b k =
      books-append (started p).0 [] (up false) (up b)
        (comms_init-books a.grant a.dma a.rx_size a.tx_size p (up false) ∙ ap (λ c. some (up c)) k)

  boot_comms-Boots : (p : Port) → Boots (in_app p) (up false) (boot_comms a p)
  unfolding books
  boot_comms-Boots p = elim (Bool-cases (in_app p)) [
    | inr m ↦
        subst (Boots (in_app p) (up false)) (sym (boot_comms-idle p m)) (false, refl, λ ok. sym m)
    | inl m ↦ elim (Bool-cases (is_ok (started p).1.1)) [
      | inl k ↦
          subst (Boots (in_app p) (up false)) (sym (boot_comms-runs p true m k))
            (true, started-books p true k, λ ok. sym m)
      | inr k ↦
          subst (Boots (in_app p) (up false)) (sym (boot_comms-runs p false m k))
            (false, started-books p false k, λ ok. absurd (cc ok))
    ]
  ]

  boot_up-granted :
      (p : Port)
      → (events_init a.irq p).1.1 ≡ true
      → let e = events_init a.irq p in let c = boot_comms a e.1.0 in boot_up a p ≡ (e.0 ++ c.0, c.1)
  unfolding boot_up
  boot_up-granted p ok = rw ok refl

  boot_up-refused :
      (p : Port)
      → (events_init a.irq p).1.1 ≡ false
      → let e = events_init a.irq p in boot_up a p ≡ (e.0 ++ [], (e.1.0, core_events))
  unfolding boot_up
  boot_up-refused p e = rw e refl

  boot_up-Boots : (p : Port) → Boots (wakes_in_app p) stopped (boot_up a p)
  unfolding books
  boot_up-Boots p =
      let e = events_init a.irq p in
      let shown = wakes_in_app p in
      elim (Bool-cases e.1.1) [
        | inl ok ↦
            let c = boot_comms a e.1.0 in
            let (running, end, as_shown) = boot_comms-Boots e.1.0 in
            subst (Boots shown stopped) (sym (boot_up-granted p ok)) (
              running,
              books-append e.0 c.0 stopped (up false) (events_init-granted a.irq p stopped ok)
                  ∙ end,
              as_shown,
            )
        | inr refused ↦ subst (Boots shown stopped) (sym (boot_up-refused p refused)) (
          false,
          books-append e.0 [] stopped (record stopped { vectors = a.irq.vectors_ok })
              (events_init-refused a.irq p stopped refused),
          λ ok. absurd (cc ok),
        )
      ]

  -- the port once the image is loaded
  abbrev loaded_port : Port → Mem → Port
  loaded_port p mmio = with_mmio (events_cleanup p).1 mmio

  -- the run behind the load, which is as `ok` says
  abbrev behind : Port → Bool → Mem → Run (Port × CoreStatus)
  behind p ok mmio = let q = loaded_port p mmio in if ok then boot_up a q else return (q, core_load)

  behind-Boots :
      (p : Port) (ok : Bool) (mmio : Mem)
      → Boots (wakes_in_app (loaded_port p mmio)) stopped (behind p ok mmio)
  unfolding books
  behind-Boots p true mmio = boot_up-Boots (loaded_port p mmio)
  behind-Boots p false mmio = (false, refl, λ ok. absurd (cc ok))

  boot_loaded-Boots :
      (p : Port) (src : Bytes) (e : Mem × List Sent × Bool)
      → Boots (wakes_in_app (loaded_port p e.0)) (up false) (boot_loaded a p src e)
  unfolding boot_loaded
  boot_loaded-Boots p src (mmio, log, ok) =
      let r = behind p ok mmio in
      let (running, end, as_shown) = behind-Boots p ok mmio in
      (
        running,
        books-append (events_cleanup p).0 (load_acts src ++ r.0) (up false) stopped
              (events_cleanup-books p (up false))
            ∙ load_acts-books src r.0 stopped
            ∙ end,
        as_shown,
      )

pub boot_dev-refused :
    (a : BootAnswers) (p : Port) (src : Bytes)
    → is_mode boot p.link.mmio ≡ false
    → boot_dev a p src ≡ some (return (p, core_eperm))
unfolding boot_dev
boot_dev-refused a p src m = rw m refl

-- the load, from the memory that the events' clean-up leaves
abbrev loading : BootAnswers → Port → Bytes → Option (Mem × List Sent × Bool)
loading a p src =
    load_image a.fuel a.polls a.env a.bl_env a.bl true (events_cleanup p).1.link.mmio src

boot_dev-loaded :
    (a : BootAnswers) (p : Port) (src : Bytes) (e : Mem × List Sent × Bool)
    → is_mode boot p.link.mmio ≡ true
    → loading a p src ≡ some e
    → boot_dev a p src ≡ some (boot_loaded a p src e)
unfolding boot_dev
boot_dev-loaded a p src e m load = rw m (rw load refl)

boot_dev-unfinished :
    (a : BootAnswers) (p : Port) (src : Bytes)
    → is_mode boot p.link.mmio ≡ true
    → loading a p src ≡ none
    → boot_dev a p src ≡ none
unfolding boot_dev
boot_dev-unfinished a p src m load = rw m (rw load refl)

-- whether the device shows the application's mode once an image is loaded and the interrupt set up
abbrev pub app_after : BootAnswers → Port → Option (Mem × List Sent × Bool) → Bool
app_after a p none = false
app_after a p (some l) = wakes_in_app a (loaded_port a p l.0)

abbrev pub boots_app : BootAnswers → Port → Bytes → Bool
boots_app a p src = app_after a p (loading a p src)

boot_dev-Boots :
    (a : BootAnswers) (p : Port) (src : Bytes) (r : Run (Port × CoreStatus))
    → boot_dev a p src ≡ some r
    → Boots a (boots_app a p src) (up false) r
unfolding books
boot_dev-Boots a p src r is = elim (Bool-cases (is_mode boot p.link.mmio)) [
  | inr m ↦
      let e : return (p, core_eperm) ≡ r = cc (boot_dev-refused a p src m, is) in
      subst (Boots a (boots_app a p src) (up false)) e (false, refl, λ ok. absurd (cc ok))
  | inl m ↦ elim (Option-cases (loading a p src)) [
    | inl out ↦ absurd (cc (boot_dev-unfinished a p src m out, is))
    | inr (l, load) ↦
        let e : boot_loaded a p src l ≡ r = cc (boot_dev-loaded a p src l m load, is) in
        subst (λ b. Boots a b (up false) r) (sym (ap (app_after a p) load))
          (subst (Boots a (wakes_in_app a (loaded_port a p l.0)) (up false)) e
            (boot_loaded-Boots a p src l))
  ]
]

-- Booting the device from an instance that is up without communications releases only what is held;
-- afterwards all is held that is held while the driver is up when it succeeds, and the interrupt is not
-- when the image cannot be loaded.
pub boot_dev-books :
    (a : BootAnswers) (p : Port) (src : Bytes) (r : Run (Port × CoreStatus))
    → boot_dev a p src ≡ some r
    → (running : Bool) × (books r.0 (up false) ≡ some (boot_ends a running r.1.1))
boot_dev-books a p src r is =
    let (running, end, as_shown) = boot_dev-Boots a p src r is in (running, end)

-- When it succeeds, communications are started exactly if the device then shows the application's mode.
pub boot_dev-ok :
    (a : BootAnswers) (p : Port) (src : Bytes) (r : Run (Port × CoreStatus))
    → boot_dev a p src ≡ some r
    → r.1.1 ≡ core_ok
    → books r.0 (up false) ≡ some (up (boots_app a p src))
boot_dev-ok a p src r is ok =
    let (running, end, as_shown) = boot_dev-Boots a p src r is in
    end ∙ ap (λ s. some (boot_ends a running s)) ok ∙ ap (λ b. some (up b)) (as_shown ok)

stranded : (q : Port) → books (core_cleanup q).0 stopped ≡ none
unfolding books comms_cleanup take_down events_cleanup
stranded q = elim (Bool-cases (is_mode app_vpulink q.link.mmio)) [
  | inr m ↦ rw (core_cleanup-other q m) refl
  | inl m ↦ rw (core_cleanup-app q m) refl
]

-- After an image could not be loaded, removing the driver releases the interrupt, which is not held.
pub boot_dev-stranded :
    (a : BootAnswers) (p q : Port) (src : Bytes) (r : Run (Port × CoreStatus))
    → boot_dev a p src ≡ some r
    → r.1.1 ≡ core_load
    → books (r.0 ++ (core_cleanup q).0) (up false) ≡ none
boot_dev-stranded a p q src r is failed =
    let (running, end) = boot_dev-books a p src r is in
    books-append r.0 (core_cleanup q).0 (up false) stopped
      (end ∙ ap (λ s. some (boot_ends a running s)) failed)
    ∙ stranded q
