-- ===== src/Serial/Ring/Receive.antt =====
-- serial/mxlk/mxlk_core.c: one turn of the loop of the receive handler.
use pcie_host_driver.Prelude.{
  ℕ, suc, ◌+◌, ◌<◌, ◌≡◌, refl, sym, ap, subst, ◌∙◌, inl, inr, Option, none, some, List, [], ◌∷◌,
  ◌++◌, append-nil, true, false, arith, ltb, ◌==◌, ltb→lt, Bool-cases, length, length-set, get_or,
  set,
}
use pcie_host_driver.Serial.Buffers.{
  BufDesc, BufList, size_add, list_get, list_put, fresh_of, pool_alloc, pool_free,
}
use pcie_host_driver.Serial.Buffers.Pool.{list_get-Taken, held, Taken-held, length-pool_free}
use pcie_host_driver.Serial.Stream.Filling.{AllFrom}
use pcie_host_driver.Mmio.{Mem}
use pcie_host_driver.Serial.Ring.Arrivals.{handed, from_slot, arrival, refilled}
use pcie_host_driver.Serial.Ring.Refilled.{mapped}
use pcie_host_driver.Serial.Ring.{
  DmaDesc, empty_slot, Mxlk, td_at, get_td_status, get_td_interface, get_td_length,
  desc_status_success, Dma, map_dma, rx_deliver, rx_refill, rx_turn,
}
use pcie_host_driver.Serial.Ring.Places.{AllHeld, AllHeld-get, AllHeld-set}

-- What a finished transfer gives: the descriptor goes to the interface or back to the pool.
pub record Moved (pool : BufList) (new : List BufDesc) (m m' : Mxlk) : Type 0 where
  pub mmio : m'.mmio ≡ m.mmio
  pub pipe : m'.rx ≡ m.rx
  pub ddr : m'.rx_ddr ≡ m.rx_ddr
  pub read : m'.read.chain ≡ m.read.chain ++ new
  pub from : AllFrom 0 new
  pub whole : length m'.rx_pool.chain + length new ≡ suc (length pool.chain)

pub Moved-freed :
    (pool : BufList) (m : Mxlk) (b : BufDesc)
    → Moved pool [] m (record m { rx_pool = pool_free pool (some b) })
Moved-freed pool m b = record {
  mmio = refl;
  pipe = refl;
  ddr = refl;
  read = sym (append-nil m.read.chain);
  from = tt;
  whole = omega (arith, length-pool_free pool (some b));
}

handed-failed :
    (status interface len : ℕ) (b : BufDesc)
    → (status == desc_status_success) ≡ false
    → handed status interface len b ≡ []
handed-failed status interface len b e = rw e refl

handed-astray :
    (status interface len : ℕ) (b : BufDesc)
    → (status == desc_status_success) ≡ true
    → ltb interface 1 ≡ false
    → handed status interface len b ≡ []
handed-astray status interface len b e out = rw (e, out) refl

handed-good :
    (status interface len : ℕ) (b : BufDesc)
    → (status == desc_status_success) ≡ true
    → ltb interface 1 ≡ true
    → handed status interface len b ≡ record b { interface = interface; length = len } ∷ []
handed-good status interface len b e good = rw (e, good) refl

pub rx_deliver-Moved :
    (status interface len : ℕ) (pool : BufList) (m : Mxlk) (b : BufDesc)
    → (m' : Mxlk) × (rx_deliver status interface len pool m (some b) ≡ some m')
      × Moved pool (handed status interface len b) m m'
unfolding rx_deliver list_put
rx_deliver-Moved status interface len pool m b =
    let b' : BufDesc = record b { interface = interface; length = len } in
    elim (Bool-cases (status == desc_status_success)) [
      | inr fail ↦ (
        record m { rx_pool = pool_free pool (some b) },
        rw (fail, rx_deliver) refl,
        subst (λ l. Moved pool l m (record m { rx_pool = pool_free pool (some b) }))
            (sym (handed-failed status interface len b fail)) (Moved-freed pool m b),
      )
      | inl ok ↦ elim (Bool-cases (ltb interface 1)) [
        | inr out ↦ (
          record m { rx_pool = pool_free pool (some b') },
          rw (ok, out, rx_deliver) refl,
          subst (λ l. Moved pool l m (record m { rx_pool = pool_free pool (some b') }))
              (sym (handed-astray status interface len b ok out)) (Moved-freed pool m b'),
        )
        | inl in_range ↦ (
          record m {
            rx_pool = pool;
            read = (list_put m.read (b' ∷ [])).0;
            rx_krn = record {
              pkts = size_add m.rx_krn.pkts 1;
              bytes = size_add m.rx_krn.bytes len;
            };
          },
          rw (ok, in_range, rx_deliver) refl,
          (let k : Mxlk = record m {
            rx_pool = pool;
            read = (list_put m.read (b' ∷ [])).0;
            rx_krn = record {
              pkts = size_add m.rx_krn.pkts 1;
              bytes = size_add m.rx_krn.bytes len;
            };
          } in
              subst (λ l. Moved pool l m k) (sym (handed-good status interface len b ok in_range))
                (record {
                  mmio = refl;
                  pipe = refl;
                  ddr = refl;
                  read = refl;
                  from = (omega (arith, ltb→lt interface 1 in_range), tt);
                  whole = omega arith;
                })),
        )
      ]
    ]

-- What a turn does to a whole ring.
pub record Turned (dma : Dma) (head : ℕ) (pool : BufList) (m m' : Mxlk) : Type 0 where
  pub moved :
      Moved pool
        (arrival m.mmio m.rx.tdr m.rx_ddr head)
        m
        (record m' { rx_ddr = m.rx_ddr; mmio = m.mmio })
  pub given : BufDesc
  pub ddr : m'.rx_ddr ≡ set m.rx_ddr head (mapped dma given)
  pub mmio : m'.mmio ≡ refilled m.mmio m.rx.tdr head (dma given).0 given.length
  pub held : AllHeld m'.rx_ddr
  pub size : length m'.rx_ddr ≡ length m.rx_ddr

from_slot-some :
    (status interface len : ℕ) (d : DmaDesc) (b : BufDesc)
    → d.bd ≡ some b
    → from_slot status interface len d ≡ handed status interface len b
from_slot-some status interface len d b e = rw e refl

arrival-slot :
    (mmio : Mem) (tdr : ℕ) (ddr : List DmaDesc) (i : ℕ) (b : BufDesc)
    → (get_or ddr i empty_slot).bd ≡ some b
    → let td = td_at tdr i in
      arrival mmio tdr ddr i
      ≡ handed (get_td_status mmio td) (get_td_interface mmio td) (get_td_length mmio td) b
arrival-slot mmio tdr ddr i b e =
    let td = td_at tdr i in
    from_slot-some (get_td_status mmio td) (get_td_interface mmio td) (get_td_length mmio td)
      (get_or ddr i empty_slot) b e

pub rx_turn-Turned :
    (dma : Dma) (head : ℕ) (b : BufDesc) (pool : BufList) (m : Mxlk)
    → AllHeld m.rx_ddr
    → head < length m.rx_ddr
    → (m' : Mxlk) × (rx_turn dma head b pool m ≡ some m') × Turned dma head pool m m'
unfolding rx_turn rx_refill map_dma
rx_turn-Turned dma head b pool m all h =
    let td = td_at m.rx.tdr head in
    let (bd, slot) = AllHeld-get m.rx_ddr head all h in
    let (m', eq, moved) =
      rx_deliver-Moved (get_td_status m.mmio td) (get_td_interface m.mmio td)
        (get_td_length m.mmio td) pool m bd in
    let d = (map_dma dma b).0 in
    (
      rx_refill dma head b m',
      rw (slot, rx_turn) (rw (eq, rx_turn) refl),
      record {
        moved =
            subst
              (λ l.
                Moved pool l m
                  (record (rx_refill dma head b m') { rx_ddr = m.rx_ddr; mmio = m.mmio }))
              (sym (arrival-slot m.mmio m.rx.tdr m.rx_ddr head bd slot))
              (record {
                mmio = refl;
                pipe = moved.pipe;
                ddr = refl;
                read = moved.read;
                from = moved.from;
                whole = moved.whole;
              });
        given = b;
        ddr = ap (λ l. set l head d) moved.ddr;
        mmio =
            ap (λ k. refilled k m'.rx.tdr head d.phys d.length) moved.mmio
            ∙ ap (λ p. refilled m.mmio p.tdr head d.phys d.length) moved.pipe;
        held = AllHeld-set m'.rx_ddr head d (subst AllHeld (sym moved.ddr) all) refl;
        size = length-set m'.rx_ddr head d ∙ ap length moved.ddr;
      },
    )

pub held-fresh_of : (bd : Option BufDesc) (n : ℕ) → held (fresh_of bd) + n ≡ held bd + n
unfolding fresh_of
held-fresh_of none n = refl
held-fresh_of (some bd) n = refl

-- A pool's next descriptor, and how many there are.
pub pool_alloc-held :
    (pool : BufList)
    → held (pool_alloc pool).0 + length (pool_alloc pool).1.chain ≡ length pool.chain
unfolding pool_alloc
pool_alloc-held pool =
    held-fresh_of (list_get pool).0 (length (list_get pool).1.chain)
    ∙ Taken-held pool.chain (list_get pool).0 (list_get pool).1.chain (list_get-Taken pool)
