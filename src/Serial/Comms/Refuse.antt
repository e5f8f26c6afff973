-- ===== src/Serial/Comms/Refuse.antt =====
-- serial/mxlk/mxlk_core.c: when `mxlk_comms_init` is refused, and what it then leaves.
use pcie_host_driver.Prelude.{
  ℕ, ◌≡◌, ◌≢◌, ◌⊎◌, refl, sym, ap, subst, ◌∙◌, Bool, true, false, Option, none, some, inl, inr,
  ◌==◌, ==_iff, ==-false, Bool-cases, Option-cases,
}
use pcie_host_driver.Common.Effects.{Held, Run, return}
use pcie_host_driver.Common.Effects.Ledger.{books}
use pcie_host_driver.Serial.Ring.{Mxlk, Dma}
use pcie_host_driver.Serial.Caps.{cap_find, cap_txrx}
use pcie_host_driver.Serial.Setup.{Grant, TxrxStatus, txrx_ok, txrx_error, divide_error, txrx_init}
use pcie_host_driver.Serial.Comms.{
  Port, CommsStatus, comms_ok, comms_eio, comms_error, comms_trap, comms_init, start_comms,
  discover_txrx, get_device_status, status_run, version_check, ring_doorbell,
}

abbrev pub is_ok : CommsStatus → Bool
is_ok comms_ok = true
is_ok comms_eio = false
is_ok comms_error = false
is_ok comms_trap = false

-- what the status of the set-up of the rings becomes
abbrev of_txrx : TxrxStatus → CommsStatus
of_txrx txrx_ok = comms_ok
of_txrx txrx_error = comms_error
of_txrx divide_error = comms_trap

-- How an attempt to start ends: refused with -EIO and the port as it was, or as the set-up of the
-- rings ends.
data Attempt (g : Grant) (dma : Dma) (rx_size tx_size : ℕ) (p : Port)
    : Run (Port × CommsStatus) → Type 0 where
  refused :
      (get_device_status p.link.mmio ≢ status_run)
        ⊎ ((version_check p.link.mmio ≡ false) ⊎ (cap_find p.link.mmio 0 cap_txrx ≡ none))
      → Attempt g dma rx_size tx_size p (return (p, comms_eio))
  failed :
      (link : Mxlk) (cap : ℕ) (s : TxrxStatus)
      → get_device_status p.link.mmio ≡ status_run
      → version_check p.link.mmio ≡ true
      → cap_find p.link.mmio 0 cap_txrx ≡ some cap
      → txrx_init g dma rx_size tx_size cap p.link ≡ (link, s)
      → s ≢ txrx_ok
      → Attempt g dma rx_size tx_size p (return (record p { link = link }, of_txrx s))
  started :
      (link : Mxlk) (cap : ℕ)
      → get_device_status p.link.mmio ≡ status_run
      → version_check p.link.mmio ≡ true
      → cap_find p.link.mmio 0 cap_txrx ≡ some cap
      → txrx_init g dma rx_size tx_size cap p.link ≡ (link, txrx_ok)
      → Attempt g dma rx_size tx_size p (start_comms (record p { link = link }))

module _ (g : Grant) (dma : Dma) (rx_size tx_size : ℕ) (p : Port) where
  abbrev attempt : Run (Port × CommsStatus)
  attempt = comms_init g dma rx_size tx_size p

  refused_status : get_device_status p.link.mmio ≢ status_run → attempt ≡ return (p, comms_eio)
  unfolding comms_init
  refused_status ne = rw (==-false (get_device_status p.link.mmio) status_run ne) refl

  refused_version :
      get_device_status p.link.mmio ≡ status_run
      → version_check p.link.mmio ≡ false
      → attempt ≡ return (p, comms_eio)
  unfolding comms_init
  refused_version run v = rw (run, v) refl

  discover-none :
      cap_find p.link.mmio 0 cap_txrx ≡ none
      → discover_txrx g dma rx_size tx_size p.link ≡ (p.link, none)
  unfolding discover_txrx
  discover-none e = rw (e, discover_txrx) refl

  discover-some :
      (cap : ℕ) (link : Mxlk) (s : TxrxStatus)
      → cap_find p.link.mmio 0 cap_txrx ≡ some cap
      → txrx_init g dma rx_size tx_size cap p.link ≡ (link, s)
      → discover_txrx g dma rx_size tx_size p.link ≡ (link, some s)
  unfolding discover_txrx
  discover-some cap link s e done = rw (e, discover_txrx) (rw done refl)

  -- the end of an attempt, by what the discovery of the rings gives
  abbrev ending : Mxlk × Option TxrxStatus → Run (Port × CommsStatus)
  ending (link, found) = elim found [
    | none ↦ return (record p { link = link }, comms_eio)
    | some s ↦ elim s [
      | txrx_ok ↦ start_comms (record p { link = link })
      | txrx_error ↦ return (record p { link = link }, comms_error)
      | divide_error ↦ return (record p { link = link }, comms_trap)
    ]
  ]

  attempt-ending :
      get_device_status p.link.mmio ≡ status_run
      → version_check p.link.mmio ≡ true
      → attempt ≡ ending (discover_txrx g dma rx_size tx_size p.link)
  unfolding comms_init
  attempt-ending run v = rw (run, v) refl

  abbrev IsAttempt : Run (Port × CommsStatus) → Type 0
  IsAttempt o = Attempt g dma rx_size tx_size p o

  IsAttempt-txrx :
      (cap : ℕ) (link : Mxlk) (s : TxrxStatus)
      → get_device_status p.link.mmio ≡ status_run
      → version_check p.link.mmio ≡ true
      → cap_find p.link.mmio 0 cap_txrx ≡ some cap
      → txrx_init g dma rx_size tx_size cap p.link ≡ (link, s)
      → IsAttempt (ending (link, some s))
  IsAttempt-txrx cap link txrx_ok run v e done = started link cap run v e done
  IsAttempt-txrx cap link txrx_error run v e done =
      failed link cap txrx_error run v e done (λ k. cc)
  IsAttempt-txrx cap link divide_error run v e done =
      failed link cap divide_error run v e done (λ k. cc)

  -- An attempt to start communications is refused with -EIO, the port as it was and no act, when the
  -- device is not running, has another version or has no capability for the rings; else it ends as the
  -- set-up of the rings does, and goes on to start exactly if that succeeds.
  comms_init-Attempt : Attempt g dma rx_size tx_size p (comms_init g dma rx_size tx_size p)
  comms_init-Attempt = elim (Bool-cases (get_device_status p.link.mmio == status_run)) [
    | inr ne ↦
        let ne' : get_device_status p.link.mmio ≢ status_run =
          λ e. cc (ne, (==_iff (get_device_status p.link.mmio) status_run).1 e) in
        subst IsAttempt (sym (refused_status ne')) (refused (inl ne'))
    | inl is ↦
        let run = (==_iff (get_device_status p.link.mmio) status_run).0 is in
        elim (Bool-cases (version_check p.link.mmio)) [
          | inr v ↦ subst IsAttempt (sym (refused_version run v)) (refused (inr (inl v)))
          | inl v ↦ elim (Option-cases (cap_find p.link.mmio 0 cap_txrx)) [
            | inl e ↦
                subst IsAttempt (sym (attempt-ending run v ∙ ap ending (discover-none e)))
                  (refused (inr (inr e)))
            | inr (cap, e) ↦
                let link = (txrx_init g dma rx_size tx_size cap p.link).0 in
                let s = (txrx_init g dma rx_size tx_size cap p.link).1 in
                subst IsAttempt
                  (sym (attempt-ending run v ∙ ap ending (discover-some cap link s e refl)))
                  (IsAttempt-txrx cap link s run v e refl)
          ]
        ]
  ]

Attempt-books :
    (g : Grant) (dma : Dma) (rx_size tx_size : ℕ) (p : Port) (o : Run (Port × CommsStatus))
    (h : Held)
    → Attempt g dma rx_size tx_size p o
    → books o.0 (record h { streams = false; debug_file = false })
      ≡ some (record h { streams = is_ok o.1.1; debug_file = is_ok o.1.1 })
unfolding books start_comms ring_doorbell
Attempt-books g dma rx_size tx_size p o h (refused why) = refl
Attempt-books g dma rx_size tx_size p o h (failed link cap txrx_ok run v e done ne) =
    absurd (ne refl)
Attempt-books g dma rx_size tx_size p o h (failed link cap txrx_error run v e done ne) = refl
Attempt-books g dma rx_size tx_size p o h (failed link cap divide_error run v e done ne) = refl
Attempt-books g dma rx_size tx_size p o h (started link cap run v e done) = refl

pub comms_init-books :
    (g : Grant) (dma : Dma) (rx_size tx_size : ℕ) (p : Port) (h : Held)
    → let o = comms_init g dma rx_size tx_size p in
      books o.0 (record h { streams = false; debug_file = false })
      ≡ some (record h { streams = is_ok o.1.1; debug_file = is_ok o.1.1 })
comms_init-books g dma rx_size tx_size p h =
    Attempt-books g dma rx_size tx_size p (comms_init g dma rx_size tx_size p) h
      (comms_init-Attempt g dma rx_size tx_size p)
