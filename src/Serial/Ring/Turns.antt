-- ===== src/Serial/Ring/Turns.antt =====
-- serial/mxlk/mxlk_core.c: the loop of the receive handler.
use pcie_host_driver.Prelude.{
  ℕ, zero, suc, ◌+◌, ◌^◌, ◌<◌, ◌≤◌, ◌≡◌, ◌≢◌, refl, sym, ap, subst, ◌∙◌, ◌⊎◌, inl, inr, Bool, true,
  false, Option, none, some, List, [], ◌∷◌, ◌++◌, append-nil, append_assoc, arith, ==-refl,
  ==-false, Option-cases, length, length-append, set,
}
use pcie_host_driver.Serial.Buffers.{BufDesc, BufList, list_get, get_from, fresh_of, pool_alloc}
use pcie_host_driver.Serial.Buffers.Pool.{held}
use pcie_host_driver.Serial.Stream.Filling.{AllFrom}
use pcie_host_driver.Serial.Ring.{Pipe, Mxlk, circular_inc, Dma, rx_turn, rx_loop}
use pcie_host_driver.Serial.Ring.Places.{AllHeld, Steps, Steps-inc}
use pcie_host_driver.Serial.Ring.Arrivals.{
  arrival, arrivals, refilled, arrivals-refilled, Steps-back,
}
use pcie_host_driver.Serial.Ring.Refilled.{
  mapped, AllFresh, Kept, Outside, Fresh-refilled, Kept-turn, Outside-turn, Fresh-Kept,
}
use pcie_host_driver.Serial.Ring.Receive.{Turned, rx_turn-Turned, pool_alloc-held}

-- How the loop of the receive handler ends.
pub record RxEnd (dma : Dma) (m : Mxlk) (start tail k : ℕ) (o : Option (Mxlk × ℕ × Bool))
    : Type 0 where
  pub link : Mxlk
  pub head : ℕ
  pub restart : Bool
  pub eq : o ≡ some (link, head, restart)
  pub pipe : link.rx ≡ m.rx
  pub held : AllHeld link.rx_ddr
  pub size : length link.rx_ddr ≡ length m.rx_ddr
  pub turns : ℕ
  pub few : turns ≤ k
  pub way : Steps m.rx.ndesc start head turns
  pub new : List BufDesc
  pub arrived : new ≡ arrivals turns m.rx.ndesc m.mmio m.rx.tdr m.rx_ddr start
  pub read : link.read.chain ≡ m.read.chain ++ new
  pub from : AllFrom 0 new
  pub whole : length link.rx_pool.chain + length new ≡ length m.rx_pool.chain
  pub place : head < m.rx.ndesc
  pub kept : Kept m.rx m.mmio m.rx_ddr link.mmio link.rx_ddr start turns
  pub outside : Outside m.rx m.mmio link.mmio
  pub renewed : AllFresh dma m.rx link.mmio link.rx_ddr start turns
  pub stop : ((restart ≡ false) × (head ≡ tail)) ⊎ ((restart ≡ true) × (link.rx_pool.chain ≡ []))

pub rx_loop-arrived :
    (fuel : ℕ) (dma : Dma) (head : ℕ) (m : Mxlk)
    → rx_loop (suc fuel) dma head head m ≡ some (m, head, false)
unfolding rx_loop
rx_loop-arrived fuel dma head m = rw (==-refl head, rx_loop) refl

pub rx_loop-starved :
    (fuel : ℕ) (dma : Dma) (head tail : ℕ) (m : Mxlk)
    → head ≢ tail
    → (pool_alloc m.rx_pool).0 ≡ none
    → rx_loop (suc fuel) dma head tail m ≡ some (m, head, true)
unfolding rx_loop
rx_loop-starved fuel dma head tail m ne e = rw (==-false head tail ne, e, rx_loop) refl

pub rx_loop-turn :
    (fuel : ℕ) (dma : Dma) (head tail : ℕ) (m m' : Mxlk) (b : BufDesc)
    → head ≢ tail
    → (pool_alloc m.rx_pool).0 ≡ some b
    → rx_turn dma head b (pool_alloc m.rx_pool).1 m ≡ some m'
    → rx_loop (suc fuel) dma head tail m ≡ rx_loop fuel dma (circular_inc head m.rx.ndesc) tail m'
unfolding rx_loop
rx_loop-turn fuel dma head tail m m' b ne e turn =
    rw (==-false head tail ne, e) (rw (turn, rx_loop) refl)

pub get_from-none : (l : BufList) (c : List BufDesc) → fresh_of (get_from l c).0 ≡ none → c ≡ []
unfolding get_from fresh_of
get_from-none l [] e = refl
get_from-none l (bd ∷ bds) e = absurd (cc e)

pub pool_alloc-none : (pool : BufList) → (pool_alloc pool).0 ≡ none → pool.chain ≡ []
unfolding pool_alloc list_get
pool_alloc-none pool e = get_from-none pool pool.chain e

-- The loop that has not moved.
pub RxEnd-stop :
    (dma : Dma) (m : Mxlk) (head tail k : ℕ) (restart : Bool) (o : Option (Mxlk × ℕ × Bool))
    → o ≡ some (m, head, restart)
    → AllHeld m.rx_ddr
    → head < m.rx.ndesc
    → ((restart ≡ false) × (head ≡ tail)) ⊎ ((restart ≡ true) × (m.rx_pool.chain ≡ []))
    → RxEnd dma m head tail k o
RxEnd-stop dma m head tail k restart o eq all place stop = record {
  link = m;
  head = head;
  restart = restart;
  eq = eq;
  pipe = refl;
  held = all;
  size = refl;
  turns = 0;
  few = omega arith;
  way = (omega (arith, place), inl (omega arith));
  new = [];
  arrived = refl;
  read = sym (append-nil m.read.chain);
  from = tt;
  whole = omega arith;
  place = place;
  kept = λ p r h steps le. (λ x lo hi. refl, refl);
  outside = λ a apart. refl;
  renewed = tt;
  stop = stop;
}

pub AllFrom-append :
    (id : ℕ) (xs ys : List BufDesc) → AllFrom id xs → AllFrom id ys → AllFrom id (xs ++ ys)
AllFrom-append id [] ys a b = b
AllFrom-append id (x ∷ xs) ys (e, a) b = (e, AllFrom-append id xs ys a b)

-- what the turns after the first one keep, told from before the first one
Kept-after :
    (dma : Dma) (m m' : Mxlk) (head tail k : ℕ) (pool : BufList) (o : Option (Mxlk × ℕ × Bool))
    (turned : Turned dma head pool m m') (e : RxEnd dma m' (circular_inc head m.rx.ndesc) tail k o)
    → Kept m.rx
        (refilled m.mmio m.rx.tdr head (dma turned.given).0 turned.given.length)
        (set m.rx_ddr head (mapped dma turned.given))
        e.link.mmio
        e.link.rx_ddr
        (circular_inc head m.rx.ndesc)
        e.turns
Kept-after dma m m' head tail k pool o turned e =
    let next = circular_inc head m.rx.ndesc in
    subst
      (λ l.
        Kept m.rx (refilled m.mmio m.rx.tdr head (dma turned.given).0 turned.given.length) l
          e.link.mmio e.link.rx_ddr next e.turns)
      turned.ddr
      (subst (λ l. Kept m.rx l m'.rx_ddr e.link.mmio e.link.rx_ddr next e.turns) turned.mmio
        (subst (λ p. Kept p m'.mmio m'.rx_ddr e.link.mmio e.link.rx_ddr next e.turns)
          turned.moved.pipe e.kept))

Outside-after :
    (dma : Dma) (m m' : Mxlk) (head tail k : ℕ) (pool : BufList) (o : Option (Mxlk × ℕ × Bool))
    (turned : Turned dma head pool m m') (e : RxEnd dma m' (circular_inc head m.rx.ndesc) tail k o)
    → Outside m.rx
        (refilled m.mmio m.rx.tdr head (dma turned.given).0 turned.given.length)
        e.link.mmio
Outside-after dma m m' head tail k pool o turned e =
    subst (λ l. Outside m.rx l e.link.mmio) turned.mmio
      (subst (λ p. Outside p m'.mmio e.link.mmio) turned.moved.pipe e.outside)

-- The loop that makes a turn first.
pub RxEnd-turn :
    (dma : Dma) (m m' : Mxlk) (head tail k : ℕ) (pool : BufList) (o o' : Option (Mxlk × ℕ × Bool))
    → o ≡ o'
    → 1 + length pool.chain ≡ length m.rx_pool.chain
    → Turned dma head pool m m'
    → m.rx.ndesc < 2 ^ 32
    → head < m.rx.ndesc
    → head < length m.rx_ddr
    → suc k < m.rx.ndesc
    → RxEnd dma m' (circular_inc head m.rx.ndesc) tail k o'
    → RxEnd dma m head tail (suc k) o
RxEnd-turn dma m m' head tail k pool o o' step taken turned small at inside room e = record {
  link = e.link;
  head = e.head;
  restart = e.restart;
  eq = step ∙ e.eq;
  pipe = e.pipe ∙ turned.moved.pipe;
  held = e.held;
  size = e.size ∙ turned.size;
  turns = suc e.turns;
  few = omega (arith, e.few);
  way =
      Steps-back m.rx.ndesc head e.head e.turns small at
        (subst (λ p. e.head < p.ndesc) turned.moved.pipe e.place) (omega (arith, e.few, room))
        (subst (λ p. Steps p.ndesc (circular_inc head m.rx.ndesc) e.head e.turns) turned.moved.pipe
          e.way);
  new = arrival m.mmio m.rx.tdr m.rx_ddr head ++ e.new;
  arrived =
      let next = circular_inc head m.rx.ndesc in
      let later =
        e.arrived
        ∙ ap (λ p. arrivals e.turns p.ndesc m'.mmio p.tdr m'.rx_ddr next) turned.moved.pipe
        ∙ ap (λ k. arrivals e.turns m.rx.ndesc k m.rx.tdr m'.rx_ddr next) turned.mmio
        ∙ ap
            (λ l.
              arrivals e.turns m.rx.ndesc
                (refilled m.mmio m.rx.tdr head (dma turned.given).0 turned.given.length) m.rx.tdr l
                next)
            turned.ddr
        ∙ arrivals-refilled e.turns m.rx.ndesc m.mmio m.rx.tdr head (dma turned.given).0
            turned.given.length (mapped dma turned.given) m.rx_ddr small at
            (omega (arith, e.few, room)) in
      ap (λ l. arrival m.mmio m.rx.tdr m.rx_ddr head ++ l) later;
  read =
      e.read
      ∙ ap (λ c. c ++ e.new) turned.moved.read
      ∙ append_assoc m.read.chain (arrival m.mmio m.rx.tdr m.rx_ddr head) e.new;
  from = AllFrom-append 0 (arrival m.mmio m.rx.tdr m.rx_ddr head) e.new turned.moved.from e.from;
  whole = omega (
    arith,
    e.whole,
    turned.moved.whole,
    taken,
    length-append (arrival m.mmio m.rx.tdr m.rx_ddr head) e.new,
  );
  place = subst (λ p. e.head < p.ndesc) turned.moved.pipe e.place;
  kept =
      Kept-turn m.rx m.mmio e.link.mmio m.rx_ddr e.link.rx_ddr head e.turns
        (mapped dma turned.given) small at (Kept-after dma m m' head tail k pool o' turned e);
  outside =
      Outside-turn m.rx m.mmio e.link.mmio head (dma turned.given).0 turned.given.length at
        (Outside-after dma m m' head tail k pool o' turned e);
  renewed = (
    Fresh-Kept dma m.rx (refilled m.mmio m.rx.tdr head (dma turned.given).0 turned.given.length)
        e.link.mmio (set m.rx_ddr head (mapped dma turned.given)) e.link.rx_ddr head e.turns small
        at (omega (arith, e.few, room)) (Kept-after dma m m' head tail k pool o' turned e)
        (Fresh-refilled dma m.rx m.mmio m.rx_ddr head turned.given inside),
    subst (λ p. AllFresh dma p e.link.mmio e.link.rx_ddr (circular_inc head m.rx.ndesc) e.turns)
        turned.moved.pipe e.renewed,
  );
  stop = e.stop;
}

pub rx_loop-RxEnd :
    (fuel : ℕ) (dma : Dma) (head tail : ℕ) (m : Mxlk) (n k : ℕ)
    → m.rx.ndesc ≡ n
    → n < 2 ^ 32
    → head < n
    → tail < n
    → Steps n head tail k
    → k < fuel
    → AllHeld m.rx_ddr
    → length m.rx_ddr ≡ n
    → RxEnd dma m head tail k (rx_loop fuel dma head tail m)
rx_loop-RxEnd zero dma head tail m n k ring small h t steps enough all size =
    absurd (omega (arith, enough))
rx_loop-RxEnd (suc fuel) dma head tail m n zero ring small h t (le, steps) enough all size =
    let e : head ≡ tail = elim steps [
      | inl x ↦ omega (arith, x)
      | inr x ↦ absurd (omega (arith, x, h))
    ] in
    RxEnd-stop dma m head tail 0 false (rx_loop (suc fuel) dma head tail m)
      (ap (λ a. rx_loop (suc fuel) dma head a m) (sym e) ∙ rx_loop-arrived fuel dma head m) all
      (omega (arith, ring, h)) (inl (refl, e))
rx_loop-RxEnd (suc fuel) dma head tail m n (suc k) ring small h t steps enough all size =
    let ne : head ≢ tail = λ e. elim steps.1 [
      | inl x ↦ absurd (omega (arith, x, e))
      | inr x ↦ absurd (omega (arith, x, e, steps.0))
    ] in
    let here = rx_loop (suc fuel) dma head tail m in
    let pool = (pool_alloc m.rx_pool).1 in
    elim (Option-cases (pool_alloc m.rx_pool).0) [
      | inl none_left ↦
          RxEnd-stop dma m head tail (suc k) true here
            (rx_loop-starved fuel dma head tail m ne none_left) all (omega (arith, ring, h))
            (inr (refl, pool_alloc-none m.rx_pool none_left))
      | inr (b, taken) ↦
          let (m', eq, turned) = rx_turn-Turned dma head b pool m all (omega (arith, size, h)) in
          let (steps', h') = Steps-inc n head tail k small h t steps in
          let next = circular_inc head m.rx.ndesc in
          let same : next ≡ circular_inc head n = ap (circular_inc head) ring in
          RxEnd-turn dma m m' head tail k pool here (rx_loop fuel dma next tail m')
            (rx_loop-turn fuel dma head tail m m' b ne taken eq)
            (ap (λ d. held d + length pool.chain) (sym taken) ∙ pool_alloc-held m.rx_pool) turned
            (omega (arith, ring, small)) (omega (arith, ring, h)) (omega (arith, size, h))
            (omega (arith, ring, steps.0))
            (rx_loop-RxEnd fuel dma next tail m' n k (ap Pipe.ndesc turned.moved.pipe ∙ ring) small
              (subst (λ i. i < n) (sym same) h') t (subst (λ i. Steps n i tail k) (sym same) steps')
              (omega (arith, enough)) turned.held (turned.size ∙ size))
    ]
