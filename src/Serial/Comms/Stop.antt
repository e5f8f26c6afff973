-- ===== src/Serial/Comms/Stop.antt =====
-- serial/mxlk/mxlk_core.c: what `mxlk_comms_cleanup` frees, and when `mxlk_comms_init` is refused.
use pcie_host_driver.Prelude.{
  ℕ, ◌+◌, ◌≡◌, refl, sym, ap, ◌∙◌, Bool, true, false, Option, none, some, List, [], ◌∷◌, ◌++◌,
  append-nil, append_assoc, inl, inr, Option-cases, if◌then◌else◌,
}
use pcie_host_driver.Mmio.{Mem}
use pcie_host_driver.Common.Effects.{Held}
use pcie_host_driver.Common.Effects.Ledger.{books}
use pcie_host_driver.Serial.Buffers.{BufDesc, BufList, get_from, pool_free, list_put, list_cleanup}
use pcie_host_driver.Serial.Ring.{DmaDesc, Mxlk, td_at, set_td_address, set_td_length}
use pcie_host_driver.Serial.Setup.{drain, txrx_cleanup}
use pcie_host_driver.Serial.Comms.{
  Port, free_read, interfaces_cleanup, set_host_status, comms_cleanup, status_uninit,
}

-- the descriptors in the slots of a ring
abbrev pub in_slots : List DmaDesc → List BufDesc
in_slots [] = []
in_slots (d ∷ ds) = elim d.bd [ none ↦ in_slots ds | some b ↦ b ∷ in_slots ds ]

abbrev pub in_progress : Option BufDesc → List BufDesc
in_progress none = []
in_progress (some b) = b ∷ []

-- Every descriptor of a driver instance: queued to be sent, in the transmit pool and ring, in the
-- receive pool, read in part, waiting to be read, and in the receive ring.
abbrev pub descriptors : Port → List BufDesc
descriptors p =
    p.link.write.chain
    ++ ((p.link.tx_pool.chain ++ in_slots p.link.tx_ddr)
        ++ (((p.link.rx_pool.chain ++ in_progress p.partial_read) ++ p.link.read.chain)
            ++ in_slots p.link.rx_ddr))

in_slots-gap : (d : DmaDesc) (ds : List DmaDesc) → d.bd ≡ none → in_slots (d ∷ ds) ≡ in_slots ds
in_slots-gap d ds e = rw e refl

in_slots-slot :
    (d : DmaDesc) (ds : List DmaDesc) (b : BufDesc)
    → d.bd ≡ some b
    → in_slots (d ∷ ds) ≡ b ∷ in_slots ds
in_slots-slot d ds b e = rw e refl

pool_free-chain :
    (pool : BufList) (bd : Option BufDesc)
    → (pool_free pool bd).chain ≡ pool.chain ++ in_progress bd
unfolding pool_free list_put
pool_free-chain pool none = sym (append-nil pool.chain)
pool_free-chain pool (some b) = refl

drain-gap :
    (d : DmaDesc) (ds : List DmaDesc) (i tdr : ℕ) (clears : Bool) (pool : BufList) (mmio : Mem)
    → d.bd ≡ none
    → drain (d ∷ ds) i tdr clears pool mmio ≡ drain ds (i + 1) tdr clears pool mmio
unfolding drain
drain-gap d ds i tdr clears pool mmio e = rw (e, drain) refl

drain-slot :
    (d : DmaDesc) (ds : List DmaDesc) (i tdr : ℕ) (clears : Bool) (pool : BufList) (mmio : Mem)
    (b : BufDesc)
    → d.bd ≡ some b
    → (mmio' : Mem) × (drain (d ∷ ds) i tdr clears pool mmio
        ≡ drain ds (i + 1) tdr clears (pool_free pool (some b)) mmio')
unfolding drain
drain-slot d ds i tdr clears pool mmio b e =
    let td = td_at tdr i in
    let cleared = set_td_length (set_td_address mmio td 0) td 0 in
    (if clears then cleared else mmio, rw (e, drain) refl)

drain-chain :
    (ddr : List DmaDesc) (i tdr : ℕ) (clears : Bool) (pool : BufList) (mmio : Mem)
    → (drain ddr i tdr clears pool mmio).0.chain ≡ pool.chain ++ in_slots ddr
unfolding drain
drain-chain [] i tdr clears pool mmio = sym (append-nil pool.chain)
drain-chain (d ∷ ds) i tdr clears pool mmio = elim (Option-cases d.bd) [
  | inl e ↦
      ap (λ r. r.0.chain) (drain-gap d ds i tdr clears pool mmio e)
      ∙ drain-chain ds (i + 1) tdr clears pool mmio
      ∙ ap (λ l. pool.chain ++ l) (sym (in_slots-gap d ds e))
  | inr (b, e) ↦
      let (mmio', step) = drain-slot d ds i tdr clears pool mmio b e in
      ap (λ r. r.0.chain) step
      ∙ drain-chain ds (i + 1) tdr clears (pool_free pool (some b)) mmio'
      ∙ ap (λ c. c ++ in_slots ds) (pool_free-chain pool (some b))
      ∙ append_assoc pool.chain (b ∷ []) (in_slots ds)
      ∙ ap (λ l. pool.chain ++ l) (sym (in_slots-slot d ds b e))
]

free_read-chain :
    (bds : List BufDesc) (l pool : BufList) → (free_read bds l pool).1.chain ≡ pool.chain ++ bds
unfolding free_read
free_read-chain [] l pool = sym (append-nil pool.chain)
free_read-chain (bd ∷ bds) l pool =
    free_read-chain bds (get_from l (bd ∷ bds)).1 (pool_free pool (some bd))
    ∙ ap (λ c. c ++ bds) (pool_free-chain pool (some bd))
    ∙ append_assoc pool.chain (bd ∷ []) bds

free_read-left :
    (bds : List BufDesc) (l pool : BufList) → l.chain ≡ bds → (free_read bds l pool).0.chain ≡ []
unfolding free_read get_from
free_read-left [] l pool e = e
free_read-left (bd ∷ bds) l pool e =
    free_read-left bds (get_from l (bd ∷ bds)).1 (pool_free pool (some bd)) refl

txrx_cleanup-freed :
    (m : Mxlk)
    → (txrx_cleanup m).1
      ≡ (m.tx_pool.chain ++ in_slots m.tx_ddr) ++ (m.rx_pool.chain ++ in_slots m.rx_ddr)
unfolding txrx_cleanup
txrx_cleanup-freed m =
    let tx = drain-chain m.tx_ddr 0 m.tx.tdr false m.tx_pool m.mmio in
    let mmio = (drain m.tx_ddr 0 m.tx.tdr false m.tx_pool m.mmio).1 in
    let rx = drain-chain m.rx_ddr 0 m.rx.tdr true m.rx_pool mmio in
    ap (λ c. c ++ (drain m.rx_ddr 0 m.rx.tdr true m.rx_pool mmio).0.chain) tx
    ∙ ap (λ c. (m.tx_pool.chain ++ in_slots m.tx_ddr) ++ c) rx

-- What stopping communications has done.
pub record Stopped (p : Port) : Type 0 where
  pub freed : (comms_cleanup p).1.1 ≡ descriptors p
  pub write : (comms_cleanup p).1.0.link.write.chain ≡ []
  pub read : (comms_cleanup p).1.0.link.read.chain ≡ []
  pub tx_pool : (comms_cleanup p).1.0.link.tx_pool.chain ≡ []
  pub rx_pool : (comms_cleanup p).1.0.link.rx_pool.chain ≡ []
  pub tx_dangles : (comms_cleanup p).1.0.link.tx_ddr ≡ p.link.tx_ddr
  pub rx_dangles : (comms_cleanup p).1.0.link.rx_ddr ≡ p.link.rx_ddr
  pub read_dangles : (comms_cleanup p).1.0.partial_read ≡ p.partial_read
  pub books :
      (h : Held)
      → books (comms_cleanup p).0 (record h { streams = true; debug_file = true })
        ≡ some (record h { streams = false; debug_file = false })

-- Stopping frees every descriptor of the driver once, wherever it is, and leaves none in a list or a
-- pool; but the pointers to the rings' arrays, with the freed descriptors in their slots, and to a
-- descriptor that was read in part stay as they were. The rings and the debug file are given up.
pub comms_cleanup-Stopped : (p : Port) → Stopped p
unfolding comms_cleanup interfaces_cleanup set_host_status list_cleanup books txrx_cleanup
comms_cleanup-Stopped p =
    let l = p.link in
    let pool = pool_free l.rx_pool p.partial_read in
    let back =
      free_read-chain l.read.chain l.read pool
      ∙ ap (λ c. c ++ l.read.chain) (pool_free-chain l.rx_pool p.partial_read) in
    let q = (interfaces_cleanup (set_host_status p status_uninit)).0 in
    let tx = l.tx_pool.chain ++ in_slots l.tx_ddr in
    record {
      freed =
          ap (λ c. l.write.chain ++ c)
            (append-nil (txrx_cleanup q.link).1
              ∙ txrx_cleanup-freed q.link
              ∙ ap (λ c. tx ++ (c ++ in_slots l.rx_ddr)) back);
      write = refl;
      read = free_read-left l.read.chain l.read pool refl;
      tx_pool = refl;
      rx_pool = refl;
      tx_dangles = refl;
      rx_dangles = refl;
      read_dangles = refl;
      books = λ h. refl;
    }
