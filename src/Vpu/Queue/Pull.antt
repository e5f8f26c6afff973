-- ===== src/Vpu/Queue/Pull.antt =====
-- Taking elements from the ring of mxvp_queue.c: `mxvp_queue_pull` and `mxvp_queue_reset`.
use pcie_host_driver.Prelude.{
  ℕ, suc, ◌+◌, ◌%◌, ◌^◌, ◌≤◌, ◌<◌, ◌≡◌, ◌≢◌, refl, ◌∙◌, sym, ap, inl, inr, Bool, true, false,
  Option, none, some, List, [], ◌∷◌, ◌++◌, arith, length, Bool-cases, ==-refl, ==-false, ==_iff,
  ◌↔◌,
}
use pcie_host_driver.Mmio.{Mem, Bytes, rd32, wr32}
use pcie_host_driver.Mmio.Laws.{rd32-SameOn, rd32-wr32, wr32-SameOn}
use pcie_host_driver.Vpu.Queue.{
  Queue, head_of, tail_of, qcontrol_head, qcontrol_tail, queue_wrap_marker, is_empty, dequeue,
  queue_pull, queue_reset, queue_is_empty,
}
use pcie_host_driver.Vpu.Queue.Seg.{At, Seg, Seg-le, Seg-frame}
use pcie_host_driver.Vpu.Queue.Enqueue.{IsLayout, int_at-small}
use pcie_host_driver.Vpu.Queue.Fifo.{Straight, Wrapped, Holds, straight, wrapped}

-- What a pull may do to a ring that holds `es`: with room for the oldest element, that element and
-- the rest; without it, or with no element, nothing; and never a loop without end.
abbrev pub PullOutcome : Queue → (ℕ → Bool) → List Bytes → Option (Mem × Option Bytes) → Type 0
PullOutcome q alloc es none = ⊥
PullOutcome q alloc [] (some (m', none)) = Holds m' q []
PullOutcome q alloc [] (some (m', some x)) = ⊥
PullOutcome q alloc (e ∷ es) (some (m', none)) = Holds m' q (e ∷ es) × (alloc (length e) ≡ false)
PullOutcome q alloc (e ∷ es) (some (m', some x)) =
    Holds m' q es × (alloc (length e) ≡ true) × (x ≡ e)

module _ (m : Mem) (q : Queue) (lay : IsLayout q) (v : ℕ) (small : v < 2 ^ 32) where
  abbrev moved : Mem
  moved = wr32 m (q.control + qcontrol_head) v

  head_of-moved : head_of moved q ≡ v
  head_of-moved = omega (arith, rd32-wr32 m (q.control + qcontrol_head) v)

  tail_of-moved : tail_of moved q ≡ tail_of m q
  tail_of-moved = rd32-SameOn m moved (q.control + qcontrol_tail) (
      wr32-SameOn m (q.control + qcontrol_head) v (q.control + qcontrol_tail) 4 (inl (omega arith)))

  ring-moved : (x : ℕ) → q.memory ≤ x → x < q.memory + q.size → moved x ≡ m x
  ring-moved x lo hi =
      wr32-SameOn m (q.control + qcontrol_head) v x 1 (omega (arith, lay.apart)) x (omega arith)
        (omega arith)

  Seg-moved :
      (h t : ℕ) (es : List Bytes) → t ≤ q.size → Seg m q.memory h t es → Seg moved q.memory h t es
  Seg-moved h t es fits s =
      Seg-frame m moved q.memory h t es (λ x lo hi. ring-moved x (omega arith) (omega arith)) s

module _ (m : Mem) (q : Queue) (alloc : ℕ → Bool) (lay : IsLayout q) where
  -- the element at the head, where the ring is not empty
  pull-At :
      (fuel : ℕ) (e : Bytes) (es : List Bytes)
      → At m (q.memory + head_of m q) e
      → head_of m q ≢ tail_of m q
      → length e < queue_wrap_marker
      → head_of m q + length e ≤ 2 ^ 31
      → Holds m q (e ∷ es)
      → Holds (wr32 m (q.control + qcontrol_head) (head_of m q + length e)) q es
      → PullOutcome q alloc (e ∷ es) (queue_pull (suc fuel) alloc m q)
  unfolding queue_pull is_empty dequeue
  pull-At fuel e es at full short before_end before after =
      let near : (head_of m q + length e) % 2 ^ 32 ≡ head_of m q + length e = omega arith in
      rw
        (
          ==-false (tail_of m q) (head_of m q) (λ p. full (sym p)),
          int_at-small q.memory (head_of m q) (omega (arith, before_end, at.room)),
          at.leads,
          ==-false (length e) queue_wrap_marker (omega arith),
        )
        (elim (Bool-cases (alloc (length e))) [
          | inl room ↦ rw room (rw near after, room, at.bytes)
          | inr no_room ↦ rw no_room (before, no_room)
        ])

  pull-Straight :
      (fuel : ℕ) (es : List Bytes)
      → Straight m q es
      → PullOutcome q alloc es (queue_pull (suc fuel) alloc m q)
  unfolding queue_pull is_empty
  pull-Straight fuel [] s = rw (s.run, ==-refl) (straight s)
  pull-Straight fuel (e ∷ es) s =
      let up : head_of m q + length e ≤ tail_of m q =
        Seg-le m q.memory (head_of m q + length e) (tail_of m q) es s.run.1 in
      pull-At fuel e es s.run.0 (omega (arith, s.run.0.room)) (omega (arith, s.inside, lay.small))
        (omega (arith, s.inside, lay.small)) (straight s)
        (straight (record {
          run =
              rw
                (
                  head_of-moved m q lay (head_of m q + length e)
                      (omega (arith, s.inside, lay.small)),
                  tail_of-moved m q lay (head_of m q + length e)
                      (omega (arith, s.inside, lay.small)),
                )
                (Seg-moved m q lay (head_of m q + length e) (omega (arith, s.inside, lay.small))
                  (head_of m q + length e) (tail_of m q) es (omega (arith, s.inside)) s.run.1);
          inside = omega (
            arith,
            s.inside,
            tail_of-moved m q lay (head_of m q + length e) (omega (arith, s.inside, lay.small)),
          );
          whole = omega (
            arith,
            s.whole,
            tail_of-moved m q lay (head_of m q + length e) (omega (arith, s.inside, lay.small)),
          );
        }))

  -- after the marker the ring has no wrap, and starts at 0
  Straight-unwrapped :
      (w : ℕ) (ys : List Bytes)
      → Wrapped m q w [] ys
      → Straight (wr32 m (q.control + qcontrol_head) 0) q ys
  Straight-unwrapped w ys s =
      let t = tail_of-moved m q lay 0 (omega arith) in
      let top : tail_of m q ≤ q.size = omega (arith, s.behind, s.upper, s.fits) in
      record {
        run =
            rw (head_of-moved m q lay 0 (omega arith), t)
              (Seg-moved m q lay 0 (omega arith) 0 (tail_of m q) ys top s.lower);
        inside = omega (arith, t, s.behind, s.upper, s.fits);
        whole = omega (arith, t, s.whole);
      }

  Wrapped-moved :
      (w : ℕ) (e : Bytes) (xs ys : List Bytes)
      → Wrapped m q w (e ∷ xs) ys
      → head_of m q + length e ≤ w
      → Wrapped (wr32 m (q.control + qcontrol_head) (head_of m q + length e)) q w xs ys
  Wrapped-moved w e xs ys s up =
      let v = head_of m q + length e in
      let t = tail_of-moved m q lay v (omega (arith, s.fits, lay.small)) in
      let h = head_of-moved m q lay v (omega (arith, s.fits, lay.small)) in
      record {
        upper = rw h (
            Seg-moved m q lay v (omega (arith, s.fits, lay.small)) v w xs (omega (arith, s.fits))
              s.upper.1);
        marker =
            rd32-SameOn m (wr32 m (q.control + qcontrol_head) v) (q.memory + w) (λ x lo hi.
              ring-moved m q lay v (omega (arith, s.fits, lay.small)) x (omega arith)
                (omega (arith, s.fits)))
            ∙ s.marker;
        fits = s.fits;
        lower = rw t (
            Seg-moved m q lay v (omega (arith, s.fits, lay.small)) 0 (tail_of m q) ys
              (omega (arith, s.behind, s.fits)) s.lower);
        behind = omega (arith, t, h, s.behind);
        started = omega (arith, t, s.started);
        whole = omega (arith, t, s.whole);
      }

  -- at the marker the pull goes on from offset 0
  pull-marker :
      (fuel : ℕ)
      → tail_of m q ≢ head_of m q
      → head_of m q < 2 ^ 31
      → rd32 m (q.memory + head_of m q) ≡ queue_wrap_marker
      → queue_pull (suc fuel) alloc m q
        ≡ queue_pull fuel alloc (wr32 m (q.control + qcontrol_head) 0) q
  unfolding queue_pull is_empty
  pull-marker fuel full small at =
      rw (==-false (tail_of m q) (head_of m q) full, int_at-small q.memory (head_of m q) small, at)

pull-Wrapped :
    (m : Mem) (q : Queue) (alloc : ℕ → Bool) (fuel w : ℕ) (xs ys : List Bytes)
    → IsLayout q
    → Wrapped m q w xs ys
    → PullOutcome q alloc (xs ++ ys) (queue_pull (suc (suc fuel)) alloc m q)
pull-Wrapped m q alloc fuel w [] ys lay s =
    rw
      (pull-marker m q alloc lay (suc fuel) (omega (arith, s.behind))
        (omega (arith, s.upper, s.fits, lay.small))
        (ap (λ h. rd32 m (q.memory + h)) s.upper ∙ s.marker))
      (pull-Straight (wr32 m (q.control + qcontrol_head) 0) q alloc lay fuel ys
        (Straight-unwrapped m q alloc lay w ys s))
pull-Wrapped m q alloc fuel w (e ∷ xs) ys lay s =
    let up : head_of m q + length e ≤ w =
      Seg-le m q.memory (head_of m q + length e) w xs s.upper.1 in
    pull-At m q alloc lay (suc fuel) e (xs ++ ys) s.upper.0
      (omega (arith, s.behind, s.upper.0.room)) (omega (arith, s.fits, lay.small))
      (omega (arith, s.fits, lay.small)) (wrapped w (e ∷ xs) ys s refl)
      (wrapped w xs ys (Wrapped-moved m q alloc lay w e xs ys s up) refl)

-- In a ring of whole words and at most 2^31 bytes that lies apart from its control structure and holds
-- a sequence of elements, a pull takes the oldest element, whole, and leaves the others in order; it
-- returns nothing where the ring is empty or the allocation fails, and then every element stays. Two
-- rounds are enough.
pub queue_pull-PullOutcome :
    (m : Mem) (q : Queue) (alloc : ℕ → Bool) (es : List Bytes) (fuel : ℕ)
    → IsLayout q
    → Holds m q es
    → PullOutcome q alloc es (queue_pull (suc (suc fuel)) alloc m q)
queue_pull-PullOutcome m q alloc es fuel lay (straight s) =
    pull-Straight m q alloc lay (suc fuel) es s
queue_pull-PullOutcome m q alloc es fuel lay (wrapped w xs ys s e) =
    rw e (pull-Wrapped m q alloc fuel w xs ys lay s)

-- A ring of more than no bytes is empty after a reset, and `mxvp_queue_is_empty` says so.
pub queue_reset-empty :
    (m : Mem) (q : Queue)
    → 0 < q.size
    → Holds (queue_reset m q) q [] × (queue_is_empty (queue_reset m q) q ≡ true)
unfolding queue_reset queue_is_empty is_empty
queue_reset-empty m q pos =
    let k : Mem = wr32 m (q.control + qcontrol_tail) 0 in
    let t : tail_of (queue_reset m q) q ≡ 0 =
      rd32-SameOn k (queue_reset m q) (q.control + qcontrol_tail) (
        wr32-SameOn k (q.control + qcontrol_head) 0 (q.control + qcontrol_tail) 4
          (inl (omega arith)))
      ∙ rd32-wr32 m (q.control + qcontrol_tail) 0 in
    let h : head_of (queue_reset m q) q ≡ 0 = rd32-wr32 k (q.control + qcontrol_head) 0 in
    (straight (record { run = h ∙ sym t; inside = omega arith; whole = omega arith }), rw (t, h))

-- `mxvp_queue_is_empty` tells exactly whether the ring holds no element.
pub queue_is_empty_iff :
    (m : Mem) (q : Queue) (es : List Bytes) → Holds m q es → (queue_is_empty m q ≡ true) ↔ (es ≡ [])
unfolding queue_is_empty is_empty
queue_is_empty_iff m q [] (straight s) = (λ e. refl, λ e. rw (s.run, ==-refl))
queue_is_empty_iff m q (e ∷ es) (straight s) = (
  λ h. absurd (
      omega (
        arith,
        s.run.0.room,
        Seg-le m q.memory (head_of m q + length e) (tail_of m q) es s.run.1,
        (==_iff (tail_of m q) (head_of m q)).0 h,
      )),
  λ h. cc,
)
queue_is_empty_iff m q es (wrapped w xs ys s e) = (
  λ h. absurd (omega (arith, s.behind, (==_iff (tail_of m q) (head_of m q)).0 h)),
  λ h. absurd (lower-started xs ys (sym e ∙ h) s.lower s.started),
)
  where
    lower-started :
        (xs ys : List Bytes)
        → xs ++ ys ≡ []
        → Seg m q.memory 0 (tail_of m q) ys
        → 0 < tail_of m q
        → ⊥
    lower-started [] [] p l t = omega arith
    lower-started [] (y ∷ ys) p l t = cc
    lower-started (x ∷ xs) ys p l t = cc
