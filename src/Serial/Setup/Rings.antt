-- ===== src/Serial/Setup/Rings.antt =====
-- serial/mxlk/mxlk_core.c: what `mxlk_txrx_init` leaves when everything is granted.
use pcie_host_driver.Prelude.{
  ℕ, ◌+◌, ◌*◌, ◌≤◌, ◌<◌, ◌≡◌, ◌≢◌, refl, sym, ap, subst, ◌∙◌, true, false, arith, ==-false, length,
  replicate, length-replicate,
}
use pcie_host_driver.Mmio.{rd32}
use pcie_host_driver.Mmio.Laws.{Apart}
use pcie_host_driver.Serial.Buffers.{BufDesc, BufList, list_init}
use pcie_host_driver.Serial.Ring.{Pipe, empty_slot, Mxlk, Dma}
use pcie_host_driver.Serial.Ring.Places.{AllHeld}
use pcie_host_driver.Serial.Ring.Refilled.{Fresh}
use pcie_host_driver.Serial.Setup.{
  fill_pool, fill_ring, Grant, txrx_ok, pool_ndesc, fill_all, txrx_init, cap_fragment_size, cap_tx,
  cap_rx, read_pipe,
}
use pcie_host_driver.Serial.Setup.Pools.{AllGranted, IsPoolOf, fill_pool-IsPoolOf}
use pcie_host_driver.Serial.Setup.Slots.{fill_ring-Filled, rd32-fill_ring, fill_ring-Fresh}

-- What the set-up with the capability at `base` leaves when it succeeds.
pub record SetUp (dma : Dma) (base rx_ndesc tx_ndesc : ℕ) (m m' : Mxlk) : Type 0 where
  pub tx : m'.tx ≡ read_pipe m.mmio (base + cap_tx) (rd32 m.mmio (base + cap_tx + 12))
  pub rx : m'.rx ≡ read_pipe m.mmio (base + cap_rx) (rd32 m.mmio (base + cap_tx + 8))
  pub tx_ddr : m'.tx_ddr ≡ replicate m'.tx.ndesc empty_slot
  pub kept : (a : ℕ) → Apart m'.rx.tdr (m'.rx.ndesc * 16) a 4 → rd32 m'.mmio a ≡ rd32 m.mmio a
  pub size : length m'.rx_ddr ≡ m'.rx.ndesc
  pub held : AllHeld m'.rx_ddr
  pub told : (j : ℕ) → j < m'.rx.ndesc → Fresh dma m'.rx m'.mmio m'.rx_ddr j
  pub rx_pool : length m'.rx_pool.chain + m'.rx.ndesc ≡ rx_ndesc
  pub tx_pool : IsPoolOf tx_ndesc m'.tx_pool

fill_all-eq :
    (g : Grant) (dma : Dma) (rx_size tx_size fragment : ℕ) (m : Mxlk) (rx_pool tx_pool : BufList)
    → fill_pool (pool_ndesc rx_size fragment) 0 g.rx_bd g.cache_line fragment list_init
      ≡ (rx_pool, true)
    → fill_pool (pool_ndesc tx_size fragment) 0 g.tx_bd g.cache_line fragment list_init
      ≡ (tx_pool, true)
    → fill_all g dma rx_size tx_size fragment m
      ≡ fill_ring m.rx.ndesc 0 dma (record m { rx_pool = rx_pool; tx_pool = tx_pool })
unfolding fill_all
fill_all-eq g dma rx_size tx_size fragment m rx_pool tx_pool rx tx = rw (rx, tx, fill_all) refl

txrx_init-eq :
    (g : Grant) (dma : Dma) (rx_size tx_size base : ℕ) (m m2 m3 : Mxlk)
    → let fragment = rd32 m.mmio (base + cap_fragment_size) in
      let tx = read_pipe m.mmio (base + cap_tx) (rd32 m.mmio (base + cap_tx + 12)) in
      let rx = read_pipe m.mmio (base + cap_rx) (rd32 m.mmio (base + cap_tx + 8)) in
      g.tx_ring ≡ true
      → g.rx_ring ≡ true
      → fragment ≢ 0
      → m2 ≡ record m {
        tx = tx;
        tx_ddr = replicate tx.ndesc empty_slot;
        rx = rx;
        rx_ddr = replicate rx.ndesc empty_slot;
      }
      → fill_all g dma rx_size tx_size fragment m2 ≡ (m3, true)
      → txrx_init g dma rx_size tx_size base m ≡ (m3, txrx_ok)
unfolding txrx_init fill_all
txrx_init-eq g dma rx_size tx_size base m m2 m3 t r f e filled =
    let fragment = rd32 m.mmio (base + cap_fragment_size) in
    let filled' = ap (fill_all g dma rx_size tx_size fragment) (sym e) ∙ filled in
    rw (t, r, ==-false fragment 0 f) (rw (filled', txrx_init) refl)

-- With every allocation and mapping granted, a fragment size that is not 0, and a receive pool of at
-- least as many descriptors as the receive ring has slots, the set-up succeeds: each slot of the
-- receive ring has a descriptor whose bus address and length the device can see, the rest of them is in the receive pool, and the transmit pool has
-- all of its descriptors, ready for use.
pub txrx_init-SetUp :
    (g : Grant) (dma : Dma) (rx_size tx_size base : ℕ) (m : Mxlk)
    → let fragment = rd32 m.mmio (base + cap_fragment_size) in
      g.tx_ring ≡ true
      → g.rx_ring ≡ true
      → AllGranted g.rx_bd
      → AllGranted g.tx_bd
      → 0 < g.cache_line
      → ((b : BufDesc) → (dma b).1 ≡ false)
      → 0 < fragment
      → rd32 m.mmio (base + cap_rx + 4) ≤ pool_ndesc rx_size fragment
      → (m' : Mxlk) × (txrx_init g dma rx_size tx_size base m ≡ (m', txrx_ok))
        × SetUp dma base (pool_ndesc rx_size fragment) (pool_ndesc tx_size fragment) m m'
unfolding read_pipe
txrx_init-SetUp g dma rx_size tx_size base m t r rx_granted tx_granted line maps some_bytes enough =
    let fragment = rd32 m.mmio (base + cap_fragment_size) in
    let tx = read_pipe m.mmio (base + cap_tx) (rd32 m.mmio (base + cap_tx + 12)) in
    let rx = read_pipe m.mmio (base + cap_rx) (rd32 m.mmio (base + cap_tx + 8)) in
    let empty : IsPoolOf 0 list_init = record { count = refl; usable = tt } in
    let (rx_pool, rx_eq, rx_is) =
      fill_pool-IsPoolOf (pool_ndesc rx_size fragment) 0 g.rx_bd g.cache_line fragment 0 list_init
        rx_granted line some_bytes empty in
    let (tx_pool, tx_eq, tx_is) =
      fill_pool-IsPoolOf (pool_ndesc tx_size fragment) 0 g.tx_bd g.cache_line fragment 0 list_init
        tx_granted line some_bytes empty in
    let m2 : Mxlk = record m {
      tx = tx;
      tx_ddr = replicate tx.ndesc empty_slot;
      rx = rx;
      rx_ddr = replicate rx.ndesc empty_slot;
    } in
    let ready : Mxlk = record m2 { rx_pool = rx_pool; tx_pool = tx_pool } in
    let filled =
      fill_ring-Filled rx.ndesc 0 dma ready maps
        (omega (arith, length-replicate rx.ndesc empty_slot)) (omega (arith, enough, rx_is.count))
        tt in
    let m3 = (fill_ring rx.ndesc 0 dma ready).0 in
    (
      m3,
      txrx_init-eq g dma rx_size tx_size base m m2 m3 t r (omega (arith, some_bytes)) refl (
          fill_all-eq g dma rx_size tx_size fragment m2 rx_pool tx_pool rx_eq tx_eq
          ∙ ap (λ b. (m3, b)) filled.ok),
      record {
        tx = filled.tx;
        rx = filled.rx;
        tx_ddr = filled.tx_ddr ∙ ap (λ p. replicate p.ndesc empty_slot) {x = tx} (sym filled.tx);
        kept = λ a apart. rd32-fill_ring rx.ndesc 0 dma ready a maps (
            subst (λ p. Apart p.tdr ((0 + p.ndesc) * 16) a 4) {x = m3.rx} filled.rx
              (omega (arith, apart)));
        size = filled.size ∙ length-replicate rx.ndesc empty_slot ∙ ap Pipe.ndesc (sym filled.rx);
        held = filled.held;
        told = λ j lt.
            fill_ring-Fresh rx.ndesc 0 dma ready maps
              (omega (arith, length-replicate rx.ndesc empty_slot))
              (omega (arith, enough, rx_is.count)) (λ k none_yet. absurd (omega (arith, none_yet)))
              j (omega (arith, lt, ap Pipe.ndesc filled.rx));
        rx_pool =
            ap (λ n. length m3.rx_pool.chain + n) (ap Pipe.ndesc filled.rx)
            ∙ filled.pool
            ∙ rx_is.count
            ∙ omega arith;
        tx_pool = subst (IsPoolOf (pool_ndesc tx_size fragment)) (sym filled.tx_pool) (
            subst (λ n. IsPoolOf n tx_pool) {x = 0 + pool_ndesc tx_size fragment} (omega arith)
              tx_is);
      },
    )
