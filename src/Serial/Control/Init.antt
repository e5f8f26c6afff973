-- ===== src/Serial/Control/Init.antt =====
-- serial/mxlk/mxlk_core.c: what is held after `mxlk_core_init`, on each of its ways out.
use pcie_host_driver.Prelude.{
  ℕ, ◌≡◌, refl, sym, ap, subst, ◌∙◌, Bool, true, false, some, [], ◌++◌, inl, inr, ltb, Bool-cases,
}
use pcie_host_driver.Common.Effects.{Held, nothing, Run}
use pcie_host_driver.Common.Effects.Ledger.{books, books-append}
use pcie_host_driver.Common.Opmode.{app_vpulink}
use pcie_host_driver.Common.Pci.{IrqAnswers, pci_init, pci_cleanup, pci_irq_init}
use pcie_host_driver.Common.Pci.Balance.{was_mapped, pci_init-books, pci_init-mapped}
use pcie_host_driver.Serial.Comms.{
  Port, CommsStatus, comms_ok, comms_eio, comms_error, comms_trap, comms_init,
}
use pcie_host_driver.Serial.Comms.Refuse.{is_ok, comms_init-books}
use pcie_host_driver.Serial.Control.{
  events_init, events_cleanup, chrdev_add, CoreAnswers, CoreStatus, core_ok, core_eperm, core_pci,
  core_events, core_chrdev, core_comms, core_eio, core_load, unwind, unwind_chrdev, save_base,
  after_comms, init_comms, init_chrdev, init_events, max_devices, core_init, is_mode,
}

-- only the instance's own structure
abbrev pub bare : Held
bare = record nothing { instance_memory = true }

-- the PCI function as well, and then its interrupt
abbrev pub mapped : Held
mapped = record bare { device = true; regions = true; mapping = true }

abbrev pub wired : Held
wired = record mapped { vectors = true; irq = true }

-- all that a driver that is up holds, with or without communications
abbrev pub up : Bool → Held
up running = record wired { char_device = true; streams = running; debug_file = running }

pub events_init-books :
    (a : IrqAnswers) (p : Port) (h : Held)
    → books (events_init a p).0 (record h { vectors = false; irq = false })
      ≡ some (record h { vectors = a.vectors_ok; irq = (events_init a p).1.1 })
unfolding books events_init pci_irq_init
events_init-books a p h = elim (Bool-cases a.vectors_ok) [
  | inr v ↦ rw (v, events_init) refl
  | inl v ↦ elim (Bool-cases a.irq_ok) [
    | inr i ↦ rw (v, i, events_init) refl
    | inl i ↦ rw (v, i, events_init) refl
  ]
]

events_init-vectors :
    (a : IrqAnswers) (p : Port) → (events_init a p).1.1 ≡ true → a.vectors_ok ≡ true
unfolding events_init pci_irq_init
events_init-vectors a p e = elim (Bool-cases a.vectors_ok) [
  | inl v ↦ v
  | inr v ↦
      let refused : (events_init a p).1.1 ≡ false = rw (v, events_init) refl in
      absurd (cc (refused, e))
]

-- the two ends of it
pub events_init-granted :
    (a : IrqAnswers) (p : Port) (h : Held)
    → (events_init a p).1.1 ≡ true
    → books (events_init a p).0 (record h { vectors = false; irq = false })
      ≡ some (record h { vectors = true; irq = true })
events_init-granted a p h ok =
    events_init-books a p h
    ∙ ap (λ b. some (record h { vectors = b; irq = (events_init a p).1.1 }))
        (events_init-vectors a p ok)
    ∙ ap (λ b. some (record h { vectors = true; irq = b })) ok

pub events_init-refused :
    (a : IrqAnswers) (p : Port) (h : Held)
    → (events_init a p).1.1 ≡ false
    → books (events_init a p).0 (record h { vectors = false; irq = false })
      ≡ some (record h { vectors = a.vectors_ok; irq = false })
events_init-refused a p h refused =
    events_init-books a p h ∙ ap (λ b. some (record h { vectors = a.vectors_ok; irq = b })) refused

pub events_cleanup-books :
    (p : Port) (h : Held)
    → books (events_cleanup p).0 (record h { vectors = true; irq = true })
      ≡ some (record h { vectors = false; irq = false })
unfolding books events_cleanup
events_cleanup-books p h = refl

unwind-books : (p : Port) (s : CoreStatus) → books (unwind p s).0 wired ≡ some bare
unfolding books unwind events_cleanup
unwind-books p s = refl

-- With a division by 0 the driver stops where it is, with all held that it had before.
abbrev pub comms_left : CommsStatus → Held
comms_left comms_trap = up false
comms_left comms_ok = bare
comms_left comms_eio = bare
comms_left comms_error = bare

-- What is left held when the driver has come up, with or without communications, or has not.
abbrev pub left : CoreAnswers → Bool → CoreStatus → Held
left a running core_ok = up running
left a running core_eperm = bare
left a running core_pci = record bare { mapping = was_mapped a.pci }
left a running core_events = record bare { vectors = a.irq.vectors_ok }
left a running (core_chrdev s) = bare
left a running (core_comms s) = comms_left s
left a running core_eio = bare
left a running core_load = bare

-- A part of the set-up that starts with `h` held leaves what its status says.
abbrev pub Leaves : CoreAnswers → Bool → Held → Run (Port × CoreStatus) → Type 0
Leaves a running h r = books r.0 h ≡ some (left a running r.1.1)

module _ (a : CoreAnswers) (p : Port) where
  abbrev started : Run (Port × CommsStatus)
  started = comms_init a.grant a.dma a.rx_size a.tx_size p

  init_comms-idle : is_mode app_vpulink p.link.mmio ≡ false → init_comms a p ≡ save_base p
  unfolding init_comms
  init_comms-idle m = rw m refl

  init_comms-runs :
      is_mode app_vpulink p.link.mmio ≡ true
      → let r = after_comms started.1.0 started.1.1 in init_comms a p ≡ (started.0 ++ r.0, r.1)
  unfolding init_comms
  init_comms-runs m = rw m refl

  after_comms-Leaves : (q : Port) (s : CommsStatus) → Leaves a true (up (is_ok s)) (after_comms q s)
  unfolding books after_comms unwind_chrdev unwind events_cleanup
  after_comms-Leaves q comms_ok = refl
  after_comms-Leaves q comms_trap = refl
  after_comms-Leaves q comms_eio = refl
  after_comms-Leaves q comms_error = refl

  init_comms-Leaves : Leaves a (is_mode app_vpulink p.link.mmio) (up false) (init_comms a p)
  unfolding books
  init_comms-Leaves = elim (Bool-cases (is_mode app_vpulink p.link.mmio)) [
    | inr m ↦
        subst (λ b. Leaves a b (up false) (init_comms a p)) (sym m)
          (subst (Leaves a false (up false)) (sym (init_comms-idle m)) refl)
    | inl m ↦
        subst (λ b. Leaves a b (up false) (init_comms a p)) (sym m)
          (let r = after_comms started.1.0 started.1.1 in
            subst (Leaves a true (up false)) (sym (init_comms-runs m)) (
              books-append started.0 r.0 (up false) (up (is_ok started.1.1))
                (comms_init-books a.grant a.dma a.rx_size a.tx_size p (up false))
              ∙ after_comms-Leaves started.1.0 started.1.1))
  ]

  init_chrdev-Leaves : Leaves a (is_mode app_vpulink p.link.mmio) wired (init_chrdev a p)
  unfolding books init_chrdev chrdev_add unwind events_cleanup
  init_chrdev-Leaves = elim (Bool-cases a.node_ok) [
    | inr n ↦ rw (n, init_chrdev) refl
    | inl n ↦ elim (Bool-cases a.cdev_ok) [
      | inr c ↦ rw (n, c, init_chrdev) refl
      | inl c ↦ rw (n, c, init_chrdev) init_comms-Leaves
    ]
  ]

  abbrev wiring : Run (Port × Bool)
  wiring = events_init a.irq p

  init_events-refused :
      wiring.1.1 ≡ false
      → init_events a p ≡ (wiring.0 ++ (pci_cleanup ++ []), (wiring.1.0, core_events))
  unfolding init_events
  init_events-refused e = rw e refl

module _ (a : CoreAnswers) (p : Port) where
  init_events-up :
      (events_init a.irq p).1.1 ≡ true
      → let e = events_init a.irq p in
        let c = init_chrdev a e.1.0 in init_events a p ≡ (e.0 ++ c.0, c.1)
  unfolding init_events
  init_events-up ok = rw ok refl

  init_events-Leaves :
      Leaves a (is_mode app_vpulink (events_init a.irq p).1.0.link.mmio) mapped (init_events a p)
  unfolding books
  init_events-Leaves =
      let e = events_init a.irq p in
      let running = is_mode app_vpulink e.1.0.link.mmio in
      elim (Bool-cases e.1.1) [
        | inr refused ↦ subst (Leaves a running mapped) (sym (init_events-refused a p refused)) (
            books-append e.0 (pci_cleanup ++ []) mapped
              (record mapped { vectors = a.irq.vectors_ok; irq = false })
              (events_init-refused a.irq p mapped refused))
        | inl ok ↦
            let c = init_chrdev a e.1.0 in
            subst (Leaves a running mapped) (sym (init_events-up ok)) (
              books-append e.0 c.0 mapped wired (events_init-granted a.irq p mapped ok)
              ∙ init_chrdev-Leaves a e.1.0)
      ]

-- the port as the set-up of the interrupt leaves it
abbrev pub wired_port : CoreAnswers → ℕ → Port → Port
wired_port a units p = (events_init a.irq (record p { unit = units })).1.0

core_init-refused :
    (a : CoreAnswers) (units : ℕ) (p : Port)
    → ltb units max_devices ≡ false
    → (core_init a units p).0 ≡ ([], (record p { unit = units }, core_eperm))
unfolding core_init
core_init-refused a units p e = rw e refl

core_init-pci :
    (a : CoreAnswers) (units : ℕ) (p : Port)
    → ltb units max_devices ≡ true
    → (pci_init a.pci).1 ≡ false
    → (core_init a units p).0 ≡ ((pci_init a.pci).0 ++ [], (record p { unit = units }, core_pci))
unfolding core_init
core_init-pci a units p e f = rw e (rw f refl)

core_init-up :
    (a : CoreAnswers) (units : ℕ) (p : Port)
    → ltb units max_devices ≡ true
    → (pci_init a.pci).1 ≡ true
    → let r = init_events a (record p { unit = units }) in
      (core_init a units p).0 ≡ ((pci_init a.pci).0 ++ r.0, r.1)
unfolding core_init
core_init-up a units p e f = rw e (rw f refl)

-- The set-up never acquires what it holds nor releases what it does not hold. When it succeeds, all is
-- held, with the communications' part exactly if the device shows the application's mode. When it
-- returns an error nothing is, but for the mapping where both DMA masks are refused and the vectors where
-- the interrupt's handler is refused. A fragment size of 0 traps in the communications' set-up: the
-- driver does not return, and holds all that it had before that.
pub core_init-Leaves :
    (a : CoreAnswers) (units : ℕ) (p : Port)
    → Leaves a (is_mode app_vpulink (wired_port a units p).link.mmio) bare (core_init a units p).0
unfolding books
core_init-Leaves a units p =
    let p' : Port = record p { unit = units } in
    let running = is_mode app_vpulink (wired_port a units p).link.mmio in
    let pci = pci_init a.pci in
    let maps = pci_init-books a.pci bare in
    elim (Bool-cases (ltb units max_devices)) [
      | inr many ↦ subst (Leaves a running bare) (sym (core_init-refused a units p many)) refl
      | inl few ↦ elim (Bool-cases pci.1) [
        | inr refused ↦ subst (Leaves a running bare) (sym (core_init-pci a units p few refused)) (
            books-append pci.0 [] bare (record bare { mapping = was_mapped a.pci })
              (maps
                ∙ ap
                    (λ b.
                      some (record bare { device = b; regions = b; mapping = was_mapped a.pci }))
                    refused))
        | inl ok ↦
            let r = init_events a p' in
            let both =
              maps
              ∙ ap (λ b. some (record bare { device = b; regions = b; mapping = was_mapped a.pci }))
                  ok
              ∙ ap (λ b. some (record mapped { mapping = b })) (pci_init-mapped a.pci ok) in
            subst (Leaves a running bare) (sym (core_init-up a units p few ok))
              (books-append pci.0 r.0 bare mapped both ∙ init_events-Leaves a p')
      ]
    ]
