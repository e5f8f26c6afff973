-- ===== src/Serial/Ring/Rx.antt =====
-- serial/mxlk/mxlk_core.c: what a run of the receive handler does to the ring and its descriptors.
use pcie_host_driver.Prelude.{
  ℕ, suc, ◌+◌, ◌*◌, ◌^◌, ◌<◌, ◌≡◌, refl, sym, ap, subst, ◌∙◌, ◌⊎◌, inl, inr, Bool, false, some,
  List, [], ◌++◌, arith, ◌==◌, ==_iff, ==-false, Bool-cases, length,
}
use pcie_host_driver.Mmio.{Mem}
use pcie_host_driver.Mmio.Laws.{Apart, SameOn, rd32-SameOn, rd32-wr32, wr32-SameOn}
use pcie_host_driver.Serial.Buffers.{BufDesc, size_add}
use pcie_host_driver.Serial.Stream.Filling.{AllFrom}
use pcie_host_driver.Serial.Ring.{
  Pipe, Mxlk, Request, get_tdr, set_tdr, is_invalid, Dma, rx_loop, rx_publish, rx_fuel,
  rx_event_handler,
}
use pcie_host_driver.Serial.Ring.Places.{AllHeld, Steps, Steps-exist}
use pcie_host_driver.Serial.Ring.Arrivals.{arrivals}
use pcie_host_driver.Serial.Ring.Refilled.{AllFresh, AllFresh-SameOn, Outside}
use pcie_host_driver.Serial.Ring.Turns.{rx_loop-RxEnd}

-- The receive ring as the device and the host leave it between runs; the registers and the transfer
-- descriptors do not overlap.
pub record IsRxRing (m : Mxlk) : Type 0 where
  pub small : m.rx.ndesc < 2 ^ 32
  pub head : get_tdr m.mmio m.rx.head < m.rx.ndesc
  pub tail : get_tdr m.mmio m.rx.tail < m.rx.ndesc
  pub size : length m.rx_ddr ≡ m.rx.ndesc
  pub held : AllHeld m.rx_ddr
  pub apart_head : Apart m.rx.head 4 m.rx.tdr (m.rx.ndesc * 16)
  pub apart_tail : Apart m.rx.tdr (m.rx.ndesc * 16) m.rx.tail 4
  pub apart_both : Apart m.rx.head 4 m.rx.tail 4

-- What a run of the receive handler has done.
pub record Received (dma : Dma) (m : Mxlk) : Type 0 where
  pub link : Mxlk
  pub requests : List Request
  pub eq : rx_event_handler dma m ≡ some (link, requests)
  pub pipe : link.rx ≡ m.rx
  pub ring : IsRxRing link
  pub turns : ℕ
  pub way : Steps m.rx.ndesc (get_tdr m.mmio m.rx.head) (get_tdr link.mmio m.rx.head) turns
  pub new : List BufDesc
  pub arrived : new ≡ arrivals turns m.rx.ndesc m.mmio m.rx.tdr m.rx_ddr (get_tdr m.mmio m.rx.head)
  pub read : link.read.chain ≡ m.read.chain ++ new
  pub from : AllFrom 0 new
  pub whole : length link.rx_pool.chain + length new ≡ length m.rx_pool.chain
  pub renewed : AllFresh dma m.rx link.mmio link.rx_ddr (get_tdr m.mmio m.rx.head) turns
  pub stop : (get_tdr link.mmio m.rx.head ≡ get_tdr m.mmio m.rx.tail) ⊎ (link.rx_pool.chain ≡ [])

-- Publishing changes only the device's memory, and leaves the head that it is given there.
rx_publish-head :
    (m : Mxlk) (head : ℕ) (restart : Bool)
    → head < 2 ^ 32
    → (mmio : Mem) × ((rx_publish m head restart).0 ≡ record m { mmio = mmio })
      × (get_tdr mmio m.rx.head ≡ head)
      × ((a n : ℕ) → Apart m.rx.head 4 a n → SameOn a n m.mmio mmio)
unfolding rx_publish
rx_publish-head m head restart small = elim (Bool-cases (get_tdr m.mmio m.rx.head == head)) [
  | inl e ↦ (
    m.mmio,
    rw (e, rx_publish) refl,
    (==_iff (get_tdr m.mmio m.rx.head) head).0 e,
    λ a n apart x lo hi. refl,
  )
  | inr e ↦ (
    set_tdr m.mmio m.rx.head head,
    rw (e, rx_publish) refl,
    rd32-wr32 m.mmio m.rx.head head ∙ omega (arith, small),
    λ a n apart. wr32-SameOn m.mmio m.rx.head head a n apart,
  )
]

rx_event_handler-loop :
    (dma : Dma) (m : Mxlk) (e : Mxlk × ℕ × Bool)
    → is_invalid (get_tdr m.mmio m.rx.head) ≡ false
    → is_invalid (get_tdr m.mmio m.rx.tail) ≡ false
    → rx_loop
        (rx_fuel m)
        dma
        (get_tdr m.mmio m.rx.head)
        (get_tdr m.mmio m.rx.tail)
        (record m { rx_event_runs = size_add m.rx_event_runs 1 })
      ≡ some e
    → rx_event_handler dma m ≡ some (rx_publish e.0 e.1 e.2)
unfolding rx_event_handler
rx_event_handler-loop dma m e h t eq = rw (h, t) (rw (eq, rx_event_handler) refl)

-- The ring is well formed again once the head register is moved.
again :
    (dma : Dma) (m : Mxlk)
    → IsRxRing m
    → (link : Mxlk) (mmio : Mem) → link.rx ≡ m.rx
    → length link.rx_ddr ≡ m.rx.ndesc
    → AllHeld link.rx_ddr
    → Outside m.rx m.mmio link.mmio
    → get_tdr mmio m.rx.head < m.rx.ndesc
    → ((a n : ℕ) → Apart link.rx.head 4 a n → SameOn a n link.mmio mmio)
    → IsRxRing (record link { mmio = mmio })
again dma m ring link mmio pipe size held outside place elsewhere =
    let back = sym pipe in
    let n = ap Pipe.ndesc pipe in
    let apart = subst (λ p. Apart p.head 4 p.tail 4) back ring.apart_both in
    let tail =
      rd32-SameOn link.mmio mmio link.rx.tail (elsewhere link.rx.tail 4 apart)
      ∙ ap (λ p. get_tdr link.mmio p.tail) pipe
      ∙ outside m.rx.tail ring.apart_tail in
    record {
      small = omega (arith, ring.small, n);
      head = subst (λ p. get_tdr mmio p.head < p.ndesc) back place;
      tail = omega (arith, tail, ring.tail, n);
      size = size ∙ sym n;
      held = held;
      apart_head = subst (λ p. Apart p.head 4 p.tdr (p.ndesc * 16)) back ring.apart_head;
      apart_tail = subst (λ p. Apart p.tdr (p.ndesc * 16) p.tail 4) back ring.apart_tail;
      apart_both = apart;
    }

-- A run of the receive handler on a ring that is well formed ends; afterwards the ring is well formed
-- again, each slot that the head has passed has a descriptor whose bus address and length its transfer
-- descriptor shows, the device's head register is at the tail unless the pool is used up, and no
-- descriptor is lost. The interface got exactly what the slots that the head has passed held: in their order, each
-- finished transfer that succeeded and was for it, with the length that the device reported.
pub rx_event_handler-Received : (dma : Dma) (m : Mxlk) → IsRxRing m → Received dma m
unfolding rx_fuel
rx_event_handler-Received dma m ring =
    let head = get_tdr m.mmio m.rx.head in
    let tail = get_tdr m.mmio m.rx.tail in
    let m' : Mxlk = record m { rx_event_runs = size_add m.rx_event_runs 1 } in
    let (k, steps) = Steps-exist m.rx.ndesc head tail ring.head ring.tail in
    let e =
      rx_loop-RxEnd (suc m.rx.ndesc) dma head tail m' m.rx.ndesc k refl ring.small ring.head
        ring.tail steps (omega (arith, steps.0)) ring.held ring.size in
    let (mmio, published, at, elsewhere) =
      rx_publish-head e.link e.head e.restart (omega (arith, e.place, ring.small)) in
    let at_head = ap (λ p. get_tdr mmio p.head) (sym e.pipe) ∙ at in
    record {
      link = record e.link { mmio = mmio };
      requests = (rx_publish e.link e.head e.restart).1;
      eq =
          rx_event_handler-loop dma m (e.link, e.head, e.restart)
            (==-false head 0xFFFFFFFF (omega (arith, ring.head, ring.small)))
            (==-false tail 0xFFFFFFFF (omega (arith, ring.tail, ring.small))) e.eq
          ∙ ap (λ l. some (l, (rx_publish e.link e.head e.restart).1)) published;
      pipe = e.pipe;
      ring =
          again dma m ring e.link mmio e.pipe (e.size ∙ ring.size) e.held e.outside
            (omega (arith, at_head, e.place)) elsewhere;
      turns = e.turns;
      way = subst (λ p. Steps m.rx.ndesc head p e.turns) (sym at_head) e.way;
      new = e.new;
      arrived = e.arrived;
      read = e.read;
      from = e.from;
      whole = e.whole;
      renewed =
          AllFresh-SameOn dma m.rx e.link.mmio mmio e.link.rx_ddr head e.turns ring.small ring.head
            (elsewhere m.rx.tdr (m.rx.ndesc * 16)
              (subst (λ p. Apart p.head 4 m.rx.tdr (m.rx.ndesc * 16)) (sym e.pipe) ring.apart_head))
            e.renewed;
      stop = elim e.stop [ inl (r, h) ↦ inl (at_head ∙ h) | inr (r, none_left) ↦ inr none_left ];
    }
