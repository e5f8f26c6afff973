-- ===== src/Vpu/Queue/Fifo.antt =====
-- The ring of mxvp_queue.c as a first-in first-out sequence of elements: what push and pull do to it.
use pcie_host_driver.Prelude.{
  ℕ, ◌+◌, ◌%◌, ◌^◌, ◌≤◌, ◌<◌, ◌≡◌, refl, ◌∙◌, inl, inr, List, [], ◌∷◌, ◌++◌, append_assoc, arith,
  ltb, Bool-cases, le→leb, le→ltb-false, lt→leb-false, lt→ltb, ◌-◌,
}
use pcie_host_driver.Mmio.{Mem, Bytes, rd_buf, rd32, wr32}
use pcie_host_driver.Mmio.Laws.{rd32-SameOn, rd32-wr32, wr32-SameOn, length-rd_buf}
use pcie_host_driver.Vpu.Queue.{
  Queue, head_of, tail_of, qcontrol_head, queue_wrap_marker, queue_alignment, roundup, enqueue,
  PushStatus, pushed, enospc, space_req, queue_push_rounded, queue_push,
}
use pcie_host_driver.Vpu.Queue.Seg.{Seg, Seg-le, Seg-frame, Seg-snoc}
use pcie_host_driver.Vpu.Queue.Enqueue.{
  IsLayout, IsElement, int_at-small, enqueue-outside, tail_of-enqueue, head_of-enqueue, At-enqueue,
}

-- The elements from head to tail, with no wrap.
pub record Straight (m : Mem) (q : Queue) (es : List Bytes) : Type 0 where
  pub run : Seg m q.memory (head_of m q) (tail_of m q) es
  pub inside : tail_of m q < q.size
  pub whole : tail_of m q % 4 ≡ 0

-- The elements `xs` from head to the marker at `w`, then `ys` from the start to tail.
pub record Wrapped (m : Mem) (q : Queue) (w : ℕ) (xs ys : List Bytes) : Type 0 where
  pub upper : Seg m q.memory (head_of m q) w xs
  pub marker : rd32 m (q.memory + w) ≡ queue_wrap_marker
  pub fits : w + 4 ≤ q.size
  pub lower : Seg m q.memory 0 (tail_of m q) ys
  pub behind : tail_of m q < head_of m q
  pub started : 0 < tail_of m q
  pub whole : tail_of m q % 4 ≡ 0

-- The ring holds the elements `es`, oldest first.
pub data Holds (m : Mem) (q : Queue) : List Bytes → Type 0 where
  straight : {es : List Bytes} → Straight m q es → Holds m q es
  wrapped :
      {es : List Bytes} (w : ℕ) (xs ys : List Bytes)
      → Wrapped m q w xs ys
      → es ≡ xs ++ ys
      → Holds m q es

-- What a push of `e` may do to a ring that holds `es`.
abbrev pub PushOutcome : Mem → Queue → List Bytes → Bytes → Mem → PushStatus → Type 0
PushOutcome m q es e m' pushed = Holds m' q (es ++ e ∷ [])
PushOutcome m q es e m' enospc = m' ≡ m

module _ (m : Mem) (q : Queue) (element : Mem) (len : ℕ) (lay : IsLayout q)
    (el : IsElement q element len) where
  -- the element goes behind the last one
  push-at_end :
      (es : List Bytes)
      → Straight m q es
      → tail_of m q + len + 4 < q.size
      → Holds (enqueue m q (tail_of m q) element len) q (es ++ rd_buf element 0 len ∷ [])
  push-at_end es s room = straight (record {
    run =
        rw
          (
            head_of-enqueue m q (tail_of m q) element len lay (omega arith),
            tail_of-enqueue m q (tail_of m q) element len lay (omega arith),
          )
          (Seg-snoc (enqueue m q (tail_of m q) element len) q.memory (head_of m q) (tail_of m q)
            (tail_of m q + len) es (rd_buf element 0 len)
            (Seg-frame m (enqueue m q (tail_of m q) element len) q.memory (head_of m q)
              (tail_of m q) es
              (λ x lo hi.
                enqueue-outside m q (tail_of m q) element len lay (omega arith) x (omega arith)
                  (omega arith) (inl hi))
              s.run)
            (At-enqueue m q (tail_of m q) element len lay el (omega arith))
            (omega (arith, length-rd_buf element 0 len)));
    inside = omega (arith, tail_of-enqueue m q (tail_of m q) element len lay (omega arith));
    whole =
        omega (
          arith,
          tail_of-enqueue m q (tail_of m q) element len lay (omega arith),
          s.whole,
          el.whole,
        );
  })

  -- behind a wrap too, below the head
  push-below :
      (w : ℕ) (xs ys : List Bytes)
      → Wrapped m q w xs ys
      → tail_of m q + len + 4 < head_of m q
      → Wrapped (enqueue m q (tail_of m q) element len) q w xs (ys ++ rd_buf element 0 len ∷ [])
  push-below w xs ys s room =
      let up : head_of m q ≤ w = Seg-le m q.memory (head_of m q) w xs s.upper in
      let m' : Mem = enqueue m q (tail_of m q) element len in
      let t : tail_of m' q ≡ tail_of m q + len =
        tail_of-enqueue m q (tail_of m q) element len lay (omega (arith, s.fits)) in
      let h : head_of m' q ≡ head_of m q =
        head_of-enqueue m q (tail_of m q) element len lay (omega (arith, s.fits)) in
      record {
        upper = rw h (
            Seg-frame m m' q.memory (head_of m q) w xs
              (λ x lo hi.
                enqueue-outside m q (tail_of m q) element len lay (omega (arith, s.fits)) x
                  (omega arith) (omega (arith, s.fits)) (inr (omega arith)))
              s.upper);
        marker =
            rd32-SameOn m m' (q.memory + w) (λ x lo hi.
              enqueue-outside m q (tail_of m q) element len lay (omega (arith, s.fits)) x
                (omega arith) (omega (arith, s.fits)) (inr (omega arith)))
            ∙ s.marker;
        fits = s.fits;
        lower = rw t (
            Seg-snoc m' q.memory 0 (tail_of m q) (tail_of m q + len) ys (rd_buf element 0 len)
              (Seg-frame m m' q.memory 0 (tail_of m q) ys
                (λ x lo hi.
                  enqueue-outside m q (tail_of m q) element len lay (omega (arith, s.fits)) x
                    (omega arith) (omega (arith, s.fits)) (inl hi))
                s.lower)
              (At-enqueue m q (tail_of m q) element len lay el (omega (arith, s.fits)))
              (omega (arith, length-rd_buf element 0 len)));
        behind = omega arith;
        started = omega (arith, el.room);
        whole = omega (arith, s.whole, el.whole);
      }

  -- the marker at the tail, and the element at the start
  push-at_start :
      (es : List Bytes)
      → Straight m q es
      → len + 4 < head_of m q
      → Wrapped
          (enqueue (wr32 m (q.memory + tail_of m q) queue_wrap_marker) q 0 element len)
          q
          (tail_of m q)
          es
          (rd_buf element 0 len ∷ [])
  push-at_start es s room =
      let up : head_of m q ≤ tail_of m q = Seg-le m q.memory (head_of m q) (tail_of m q) es s.run in
      let m1 : Mem = wr32 m (q.memory + tail_of m q) queue_wrap_marker in
      let m' : Mem = enqueue m1 q 0 element len in
      let end : tail_of m q + 4 ≤ q.size = omega (arith, s.inside, s.whole, lay.whole) in
      let t : tail_of m' q ≡ 0 + len = tail_of-enqueue m1 q 0 element len lay (omega arith) in
      let h1 : head_of m1 q ≡ head_of m q = rd32-SameOn m m1 (q.control + qcontrol_head) (
        wr32-SameOn m (q.memory + tail_of m q) queue_wrap_marker (q.control + qcontrol_head) 4
          (omega (arith, lay.apart))) in
      let h : head_of m' q ≡ head_of m1 q = head_of-enqueue m1 q 0 element len lay (omega arith) in
      record {
        upper =
            rw (h, h1)
              (Seg-frame m1 m' q.memory (head_of m q) (tail_of m q) es
                (λ x lo hi.
                  enqueue-outside m1 q 0 element len lay (omega arith) x (omega arith) (omega arith)
                    (inr (omega arith)))
                (Seg-frame m m1 q.memory (head_of m q) (tail_of m q) es
                  (λ x lo hi.
                    wr32-SameOn m (q.memory + tail_of m q) queue_wrap_marker x 1 (inr (omega arith))
                      x (omega arith) (omega arith))
                  s.run));
        marker =
            rd32-SameOn m1 m' (q.memory + tail_of m q) (λ x lo hi.
              enqueue-outside m1 q 0 element len lay (omega arith) x (omega arith) (omega arith)
                (inr (omega arith)))
            ∙ rd32-wr32 m (q.memory + tail_of m q) queue_wrap_marker;
        fits = end;
        lower = rw t (
            Seg-snoc m' q.memory 0 0 (0 + len) [] (rd_buf element 0 len) refl
              (At-enqueue m1 q 0 element len lay el (omega arith))
              (omega (arith, length-rd_buf element 0 len)));
        behind = omega (arith, t, h, h1);
        started = omega (arith, t, el.room);
        whole = omega (arith, t, el.whole);
      }

  space_req-len : space_req len ≡ len + 4
  unfolding space_req
  space_req-len = omega (arith, el.small)

  len-u32 : len % 2 ^ 32 ≡ len
  len-u32 = omega (arith, el.small)

  PushOutcome-Straight :
      (es : List Bytes)
      → Straight m q es
      → let (m', s) = queue_push_rounded m q element len in
        PushOutcome m q es (rd_buf element 0 len) m' s
  unfolding queue_push_rounded
  PushOutcome-Straight es s =
      rw
        (
          len-u32,
          space_req-len,
          le→leb (head_of m q) (tail_of m q)
              (Seg-le m q.memory (head_of m q) (tail_of m q) es s.run),
          le→ltb-false q.size (tail_of m q) (omega (arith, s.inside)),
          int_at-small q.memory (tail_of m q) (omega (arith, s.inside, lay.small)),
        )
        (elim (Bool-cases (ltb (len + 4) (q.size - tail_of m q))) [
          | inl fits ↦ rw fits (push-at_end es s (ground arith))
          | inr full ↦ rw full (elim (Bool-cases (ltb (len + 4) (head_of m q))) [
            | inl low ↦ rw low (
                wrapped (tail_of m q) es (rd_buf element 0 len ∷ [])
                  (push-at_start es s (ground arith)) refl)
            | inr none_left ↦ rw none_left refl
          ])
        ])

  PushOutcome-Wrapped :
      (w : ℕ) (xs ys : List Bytes)
      → Wrapped m q w xs ys
      → let (m', s) = queue_push_rounded m q element len in
        PushOutcome m q (xs ++ ys) (rd_buf element 0 len) m' s
  unfolding queue_push_rounded
  PushOutcome-Wrapped w xs ys s =
      rw
        (
          len-u32,
          space_req-len,
          lt→leb-false (head_of m q) (tail_of m q) s.behind,
          lt→ltb (tail_of m q) (head_of m q) s.behind,
        )
        (elim (Bool-cases (ltb (len + 4) (head_of m q - tail_of m q))) [
          | inl fits ↦ rw fits (
              wrapped w xs (ys ++ rd_buf element 0 len ∷ []) (push-below w xs ys s (ground arith))
                (append_assoc xs ys (rd_buf element 0 len ∷ [])))
          | inr full ↦ rw full refl
        ])

  roundup-len : roundup len queue_alignment % 2 ^ 64 ≡ len
  roundup-len = omega (arith, el.small, el.whole)

-- In a ring of whole words and at most 2^31 bytes that lies apart from its control structure and holds
-- a sequence of elements, a push of an element either appends it, which is then the newest one in the
-- ring, or reports ENOSPC and writes nothing.
pub queue_push-PushOutcome :
    (m : Mem) (q : Queue) (element : Mem) (len : ℕ) (es : List Bytes)
    → IsLayout q
    → IsElement q element len
    → Holds m q es
    → let (m', s) = queue_push m q element len in PushOutcome m q es (rd_buf element 0 len) m' s
unfolding queue_push
queue_push-PushOutcome m q element len es lay el (straight s) =
    rw (roundup-len m q element len lay el) (PushOutcome-Straight m q element len lay el es s)
queue_push-PushOutcome m q element len es lay el (wrapped w xs ys s e) =
    rw (roundup-len m q element len lay el, e)
      (PushOutcome-Wrapped m q element len lay el w xs ys s)
