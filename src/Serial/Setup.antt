-- ===== src/Serial/Setup.antt =====
-- serial/mxlk/mxlk_core.c: setting up the two rings and the two pools, and taking them down.
pub mod Pools
pub mod Slots
pub mod Rings
use pcie_host_driver.Prelude.{
  ℕ, zero, suc, ◌+◌, ◌-◌, ◌*◌, ◌/◌, ◌%◌, ◌^◌, Bool, true, false, Option, none, some, List, [], ◌∷◌,
  ◌++◌, ltb, ◌==◌, if◌then◌else◌, length, get_or, set, replicate,
}
use pcie_host_driver.Mmio.{Mem, rd32}
use pcie_host_driver.Serial.Buffers.{
  BufDesc, BufList, list_init, list_cleanup, list_put, alloc_bd, pool_alloc, pool_free,
}
use pcie_host_driver.Serial.Stream.{Traffic}
use pcie_host_driver.Serial.Ring.{
  Pipe, DmaDesc, empty_slot, Mxlk, td_at, set_td_address, set_td_length, Dma, map_dma,
}

-- the fields of `struct mxlk_cap_txrx` behind its header
abbrev pub cap_fragment_size : ℕ
cap_fragment_size = 4

abbrev pub cap_tx : ℕ
cap_tx = 8

abbrev pub cap_rx : ℕ
cap_rx = 24

-- A pipe of the capability at `base`, with its fields `ring`, `ndesc`, `head` and `tail` at `at`.
unfoldable pub read_pipe : Mem → ℕ → ℕ → Pipe
read_pipe mmio at old = record {
  old = old;
  ndesc = rd32 mmio (at + 4);
  head = at + 8;
  tail = at + 12;
  tdr = rd32 mmio at;
}

-- the two allocations of `mxlk_alloc_bd`, as the kernel answers them for the `i`-th descriptor
abbrev pub Grants : Type 0
Grants = ℕ → Bool × Option ℕ

-- The loop that fills a pool, from the `i`-th of `n` descriptors on.
unfoldable pub fill_pool : ℕ → ℕ → Grants → ℕ → ℕ → BufList → BufList × Bool
fill_pool zero i grants cache_line fragment pool = (pool, true)
fill_pool (suc n) i grants cache_line fragment pool =
    let (bd_ok, head) = grants i in
    elim (alloc_bd bd_ok head cache_line fragment) [
      | none ↦ (pool, false)
      | some bd ↦ fill_pool n (i + 1) grants cache_line fragment (list_put pool (bd ∷ [])).0
    ]

-- The loop that gives the receive ring its descriptors, from slot `i` on with `n` left.
unfoldable pub fill_ring : ℕ → ℕ → Dma → Mxlk → Mxlk × Bool
fill_ring zero i dma m = (m, true)
fill_ring (suc n) i dma m =
    let (bd, pool) = pool_alloc m.rx_pool in
    elim bd [
      | none ↦ (m, false)
      | some b ↦
          let (dd, failed) = map_dma dma b in
          let td = td_at m.rx.tdr i in
          let mmio = set_td_length (set_td_address m.mmio td dd.phys) td dd.length in
          let placed : Mxlk = record m { rx_pool = pool; rx_ddr = set m.rx_ddr i dd } in
          if failed
          then (placed, false)
          else fill_ring n (i + 1) dma (record placed { mmio = mmio })
    ]

-- Taking back the slots of a ring, from slot `i` on: the pool, and the device's memory with the
-- descriptors of the slots cleared if `clears`.
unfoldable pub drain : List DmaDesc → ℕ → ℕ → Bool → BufList → Mem → BufList × Mem
drain [] i tdr clears pool mmio = (pool, mmio)
drain (dd ∷ ddr) i tdr clears pool mmio =
    let td = td_at tdr i in
    let cleared = set_td_length (set_td_address mmio td 0) td 0 in
    elim dd.bd [
      | none ↦ drain ddr (i + 1) tdr clears pool mmio
      | some b ↦
          drain ddr (i + 1) tdr clears (pool_free pool (some b)) (if clears then cleared else mmio)
    ]

-- With the descriptors that are freed, in their order; an array has as many slots as its pipe says. The
-- arrays of the rings are freed, but the
-- pointers to them stay, and with them what a later look at a slot would find.
unfoldable pub txrx_cleanup : Mxlk → Mxlk × List BufDesc
txrx_cleanup m =
    let (tx_pool, mmio) = drain m.tx_ddr 0 m.tx.tdr false m.tx_pool m.mmio in
    let (rx_pool, mmio') = drain m.rx_ddr 0 m.rx.tdr true m.rx_pool mmio in
    (
      record m { mmio = mmio'; tx_pool = list_cleanup tx_pool; rx_pool = list_cleanup rx_pool },
      tx_pool.chain ++ rx_pool.chain,
    )

-- what the kernel answers to the allocations of the two rings and of the descriptors
pub record Grant : Type 0 where
  pub tx_ring : Bool
  pub rx_ring : Bool
  pub rx_bd : Grants
  pub tx_bd : Grants
  pub cache_line : ℕ

-- 0, -1, or a division by a fragment size of 0
pub data TxrxStatus : Type 0 where
  txrx_ok txrx_error divide_error : TxrxStatus

-- the size_t of an `int`, given as its bit pattern
abbrev pub sign_extend : ℕ → ℕ
sign_extend n = let r = n % 2 ^ 32 in if ltb r (2 ^ 31) then r else r + (2 ^ 64 - 2 ^ 32)

-- The turns of the loop that fills a pool which is to have `size` bytes. The size and the count are
-- `int`, the fragment's size is a size_t: a rounded size of 2 GB or more is negative, and then so is
-- the count, unless the quotient's low word is a small one again.
unfoldable pub pool_ndesc : ℕ → ℕ → ℕ
pool_ndesc size fragment =
    let rounded = (sign_extend size + (fragment - 1)) % 2 ^ 64 / fragment * fragment in
    let ndesc = sign_extend rounded / fragment % 2 ^ 32 in if ltb ndesc (2 ^ 31) then ndesc else 0

-- The part of `mxlk_txrx_init` behind the allocation of the rings.
unfoldable pub fill_all : Grant → Dma → ℕ → ℕ → ℕ → Mxlk → Mxlk × Bool
fill_all g dma rx_size tx_size fragment m =
    let (rx_pool, rx_ok) =
      fill_pool (pool_ndesc rx_size fragment) 0 g.rx_bd g.cache_line fragment list_init in
    let (tx_pool, tx_ok) =
      fill_pool (pool_ndesc tx_size fragment) 0 g.tx_bd g.cache_line fragment list_init in
    let m1 : Mxlk = record m { rx_pool = rx_pool } in
    let m2 : Mxlk = record m1 { tx_pool = tx_pool } in
    if rx_ok then if tx_ok then fill_ring m.rx.ndesc 0 dma m2 else (m2, false) else (m1, false)

-- `mxlk_txrx_init` with the capability at `base`, and the two module parameters.
unfoldable pub txrx_init : Grant → Dma → ℕ → ℕ → ℕ → Mxlk → Mxlk × TxrxStatus
txrx_init g dma rx_size tx_size base m =
    let fragment = rd32 m.mmio (base + cap_fragment_size) in
    let tx = read_pipe m.mmio (base + cap_tx) (rd32 m.mmio (base + cap_tx + 12)) in
    let rx = read_pipe m.mmio (base + cap_rx) (rd32 m.mmio (base + cap_tx + 8)) in
    let m1 : Mxlk = record m { tx = tx; tx_ddr = replicate tx.ndesc empty_slot } in
    let m2 : Mxlk = record m1 { rx = rx; rx_ddr = replicate rx.ndesc empty_slot } in
    let (m3, filled) = fill_all g dma rx_size tx_size fragment m2 in
    if g.tx_ring
    then if g.rx_ring
      then if fragment == 0
        then (m2, divide_error)
        else if filled
        then (m3, txrx_ok)
        else ((txrx_cleanup m3).0, txrx_error)
      else ((txrx_cleanup (record m1 { rx = rx; rx_ddr = [] })).0, txrx_error)
    else ((txrx_cleanup (record m { tx = tx; tx_ddr = [] })).0, txrx_error)
