-- ===== src/Serial/Transmit/Tx.antt =====
-- serial/mxlk/mxlk_core.c: what a run of the transmit handler does to the ring, the pool and the list
-- of what is to be sent.
use pcie_host_driver.Prelude.{
  ℕ, suc, ◌+◌, ◌*◌, ◌^◌, ◌<◌, ◌≡◌, refl, sym, ap, subst, ◌∙◌, ◌⊎◌, inl, inr, Bool, not, false, some,
  List, [], ◌++◌, arith, ◌==◌, ==_iff, ==-false, Bool-cases, length, length-append,
}
use pcie_host_driver.Mmio.{Mem}
use pcie_host_driver.Mmio.Laws.{Apart, SameOn, wr32-SameOn, rd32-wr32}
use pcie_host_driver.Serial.Buffers.{BufDesc, size_add}
use pcie_host_driver.Serial.Ring.{
  Pipe, DmaDesc, Mxlk, Request, get_tdr, set_tdr, is_invalid, Dma, map_dma,
}
use pcie_host_driver.Serial.Ring.Places.{Steps}
use pcie_host_driver.Serial.Transmit.{
  reclaim_loop, submit_loop, tx_publish, tx_fuel, tx_event_handler,
}
use pcie_host_driver.Serial.Transmit.Slots.{Holds, Empty}
use pcie_host_driver.Serial.Transmit.Described.{Described, Described-outside}
use pcie_host_driver.Serial.Transmit.Reclaim.{reclaim_loop-Reclaimed}
use pcie_host_driver.Serial.Transmit.Submit.{submit_loop-SubmitEnd}

-- The slots of a ring from `old` to the place before `tail` have these descriptors, in this order, and
-- the others have none.
pub record IsRing (n old tail : ℕ) (ddr : List DmaDesc) (bds : List BufDesc) : Type 0 where
  pub size : length ddr ≡ n
  pub place : tail < n
  pub steps : Steps n old tail (length bds)
  pub full : Holds n ddr old bds
  pub gaps : ℕ
  pub sum : length bds + gaps ≡ n
  pub free : Empty n ddr tail gaps

-- The transmit ring between runs: the device has sent `done` since the last one, and not yet `rest`,
-- whose transfer descriptors tell their buffers; the tail register is outside the ring.
pub record IsTxRing (dma : Dma) (m : Mxlk) (done rest : List BufDesc) : Type 0 where
  pub small : m.tx.ndesc < 2 ^ 32
  pub old : m.tx.old < m.tx.ndesc
  pub head : get_tdr m.mmio m.tx.head < m.tx.ndesc
  pub sent : Steps m.tx.ndesc m.tx.old (get_tdr m.mmio m.tx.head) (length done)
  pub ring : IsRing m.tx.ndesc m.tx.old (get_tdr m.mmio m.tx.tail) m.tx_ddr (done ++ rest)
  pub told : Described dma m.tx.ndesc m.mmio m.tx.tdr (get_tdr m.mmio m.tx.head) rest
  pub apart : Apart m.tx.tail 4 m.tx.tdr (m.tx.ndesc * 16)

-- What a run of the transmit handler has done.
pub record Transmitted (dma : Dma) (m : Mxlk) (done rest : List BufDesc) : Type 0 where
  pub link : Mxlk
  pub requests : List Request
  pub eq : tx_event_handler dma m ≡ some (link, requests)
  pub old : link.tx.old ≡ get_tdr m.mmio m.tx.head
  pub pool : link.tx_pool.chain ≡ m.tx_pool.chain ++ done
  pub given : List BufDesc
  pub write : m.write.chain ≡ given ++ link.write.chain
  pub ring : IsRing m.tx.ndesc link.tx.old (get_tdr link.mmio m.tx.tail) link.tx_ddr (rest ++ given)
  pub told : Described dma m.tx.ndesc link.mmio m.tx.tdr link.tx.old (rest ++ given)
  pub stop : (link.write.chain ≡ []) ⊎ (suc (length (rest ++ given)) ≡ m.tx.ndesc)

-- Publishing changes only the device's memory, and leaves the tail that it is given there.
tx_publish-tail :
    (m : Mxlk) (tail : ℕ) (freed : Bool) (a n : ℕ)
    → tail < 2 ^ 32
    → Apart m.tx.tail 4 a n
    → (mmio : Mem) × ((tx_publish m tail freed).0 ≡ record m { mmio = mmio })
      × (get_tdr mmio m.tx.tail ≡ tail)
      × SameOn a n m.mmio mmio
unfolding tx_publish
tx_publish-tail m tail freed a n small apart =
    elim (Bool-cases (get_tdr m.mmio m.tx.tail == tail)) [
      | inl e ↦ (
        m.mmio,
        rw (e, tx_publish) refl,
        (==_iff (get_tdr m.mmio m.tx.tail) tail).0 e,
        λ x lo hi. refl,
      )
      | inr e ↦ (
        set_tdr m.mmio m.tx.tail tail,
        rw (e, tx_publish) refl,
        rd32-wr32 m.mmio m.tx.tail tail ∙ omega (arith, small),
        wr32-SameOn m.mmio m.tx.tail tail a n apart,
      )
    ]

tx_event_handler-loops :
    (dma : Dma) (m r : Mxlk) (e : Mxlk × ℕ)
    → is_invalid (get_tdr m.mmio m.tx.head) ≡ false
    → is_invalid (get_tdr m.mmio m.tx.tail) ≡ false
    → reclaim_loop
        (tx_fuel m)
        m.tx.old
        (get_tdr m.mmio m.tx.head)
        (record m { tx_event_runs = size_add m.tx_event_runs 1 })
      ≡ some r
    → submit_loop (tx_fuel m) dma (get_tdr m.mmio m.tx.tail) (get_tdr m.mmio m.tx.head) r ≡ some e
    → tx_event_handler dma m
      ≡ some (tx_publish e.0 e.1 (not (m.tx.old == get_tdr m.mmio m.tx.head)))
unfolding tx_event_handler
tx_event_handler-loops dma m r e h t back given =
    rw (h, t) (rw (back, tx_event_handler) (rw (given, tx_event_handler) refl))

-- from the head on there are as many steps to the tail as descriptors that are not sent
Steps-between :
    (n old head tail d r k : ℕ)
    → head < n
    → tail < n
    → Steps n old head d
    → Steps n old tail k
    → k ≡ d + r
    → Steps n head tail r
Steps-between n old head tail d r k hh ht (ld, sd) (lk, sk) e = (
  omega (arith, lk, e),
  elim sd [
    | inl x ↦ elim sk [
      | inl y ↦ inl (omega (arith, x, y, e))
      | inr y ↦ inr (omega (arith, x, y, e))
    ]
    | inr x ↦ elim sk [
      | inl y ↦ absurd (omega (arith, x, y, e, ht))
      | inr y ↦ inl (omega (arith, x, y, e))
    ]
  ],
)

-- A run of the transmit handler on a ring that is well formed ends, if each mapping succeeds; what the
-- device has sent is then at the end of the pool, in order, the ring holds what is left of it and
-- behind that the front of the list to be sent, in order and from the device's head to the tail that
-- the device is given, each with the bus address, the length and the interface of its buffer in its
-- transfer descriptor, and either that list is empty or the ring is full.
pub tx_event_handler-Transmitted :
    (dma : Dma) (m : Mxlk) (done rest : List BufDesc)
    → ((b : BufDesc) → (dma b).1 ≡ false)
    → IsTxRing dma m done rest
    → Transmitted dma m done rest
unfolding tx_fuel map_dma
tx_event_handler-Transmitted dma m done rest mapped is =
    let n = m.tx.ndesc in
    let head = get_tdr m.mmio m.tx.head in
    let tail = get_tdr m.mmio m.tx.tail in
    let m' : Mxlk = record m { tx_event_runs = size_add m.tx_event_runs 1 } in
    let lengths = length-append done rest in
    let r =
      reclaim_loop-Reclaimed (suc n) m.tx.old head tail m' n is.ring.gaps done rest refl is.small
        is.old is.head is.ring.place is.sent is.ring.steps is.ring.sum (omega (arith, is.sent.0))
        is.ring.size is.ring.full is.ring.free in
    let s =
      submit_loop-SubmitEnd (suc n) dma head tail r.link n (is.ring.gaps + length done) rest mapped
        (ap Pipe.ndesc r.pipe) is.small is.head is.ring.place
        (Steps-between n m.tx.old head tail (length done) (length rest) (length (done ++ rest))
          is.head is.ring.place is.sent is.ring.steps lengths)
        (omega (arith, is.ring.sum, lengths)) (omega arith) r.size r.full r.free
        (subst (λ p. Described dma n r.link.mmio p.tdr head rest) (sym r.pipe)
          (subst (λ k. Described dma n k m.tx.tdr head rest) (sym r.mmio) is.told)) in
    let freed = not (m.tx.old == head) in
    let pipe = s.pipe ∙ r.pipe in
    let (mmio, published, at, kept) =
      tx_publish-tail s.link s.tail freed m.tx.tdr (n * 16) (omega (arith, s.place, is.small))
        (subst (λ p. Apart p.tail 4 m.tx.tdr (n * 16)) (sym pipe) is.apart) in
    let at_tail = ap (λ p. get_tdr mmio p.tail) (sym pipe) ∙ at in
    let old = ap Pipe.old pipe in
    record {
      link = record s.link { mmio = mmio };
      requests = (tx_publish s.link s.tail freed).1;
      eq =
          tx_event_handler-loops dma m r.link (s.link, s.tail)
            (==-false head 0xFFFFFFFF (omega (arith, is.head, is.small)))
            (==-false tail 0xFFFFFFFF (omega (arith, is.ring.place, is.small))) r.eq s.eq
          ∙ ap (λ l. some (l, (tx_publish s.link s.tail freed).1)) published;
      old = old;
      pool = ap (λ p. p.chain) s.pool ∙ r.pool;
      given = s.sent;
      write = ap (λ l. l.chain) (sym r.write) ∙ s.write;
      ring =
          subst (λ a. IsRing n a (get_tdr mmio m.tx.tail) s.link.tx_ddr (rest ++ s.sent)) (sym old)
            (subst (λ a. IsRing n head a s.link.tx_ddr (rest ++ s.sent)) (sym at_tail)
              (record {
                size = s.size;
                place = s.place;
                steps = s.steps;
                full = s.full;
                gaps = s.gaps;
                sum = s.sum;
                free = s.free;
              }));
      told =
          subst (λ a. Described dma n mmio m.tx.tdr a (rest ++ s.sent)) (sym old)
            (Described-outside dma n s.link.mmio mmio m.tx.tdr head (rest ++ s.sent) is.small
              is.head kept
              (subst (λ p. Described dma n s.link.mmio p.tdr head (rest ++ s.sent)) r.pipe s.told));
      stop = s.stop;
    }
