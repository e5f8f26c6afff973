-- ===== src/Vpu/Queue/Bounds.antt =====
-- vpu/mxvp/mxvp_queue.c: what of the device's memory a push may write.
use pcie_host_driver.Prelude.{
  ℕ, ◌+◌, ◌-◌, ◌%◌, ◌^◌, ◌≤◌, ◌<◌, ◌≡◌, refl, sym, ap, subst, ◌∙◌, ◌⊎◌, inl, inr, List, arith,
  dec_lt,
}
use pcie_host_driver.Mmio.{Mem, Bytes, rd_buf, wr_buf, wr32}
use pcie_host_driver.Mmio.Laws.{wr32-SameOn, wr_buf-outside, length-rd_buf}
use pcie_host_driver.Vpu.Queue.{
  Queue, head_of, tail_of, qcontrol_tail, roundup, queue_alignment, queue_wrap_marker, int_at,
  enqueue, PushStatus, pushed, queue_push_rounded, queue_push,
}
use pcie_host_driver.Vpu.Queue.Enqueue.{
  IsLayout, IsElement, int_at-small, enqueue-placed, tail_of-enqueue,
}
use pcie_host_driver.Vpu.Queue.Seg.{Seg-le}
use pcie_host_driver.Vpu.Queue.Fifo.{Holds, straight, wrapped}
use pcie_host_driver.Vpu.Queue.Room.{
  push-end, push-start, push-full, push-between, push-between_full,
}

-- an address of neither the ring nor its tail register
abbrev pub IsElsewhere : Queue → ℕ → Type 0
IsElsewhere q x =
    ((x < q.memory) ⊎ (q.memory + q.size ≤ x))
    × ((x < q.control + qcontrol_tail) ⊎ (q.control + qcontrol_tail + 4 ≤ x))

-- a result whose tail is inside the ring, and whose memory is as before elsewhere
abbrev pub IsBounded : Mem → Queue → Mem × PushStatus → Type 0
IsBounded m q r = (tail_of r.0 q < q.size) × ((x : ℕ) → IsElsewhere q x → r.0 x ≡ m x)

enqueue-elsewhere :
    (m : Mem) (q : Queue) (tail : ℕ) (element : Mem) (len x : ℕ)
    → tail < 2 ^ 31
    → tail + len ≤ q.size
    → IsElsewhere q x
    → enqueue m q tail element len x ≡ m x
enqueue-elsewhere m q tail element len x small fits (ring, register) =
    let written : Mem = wr_buf m (q.memory + tail) (rd_buf element 0 len) in
    ap (λ k. k x) (enqueue-placed m q tail element len small)
    ∙ wr32-SameOn written (q.control + qcontrol_tail) ((tail + len) % 2 ^ 32) x 1
        (elim register [ inl a ↦ inr (omega (arith, a)) | inr a ↦ inl a ]) x (omega arith)
        (omega arith)
    ∙ wr_buf-outside m (q.memory + tail) (rd_buf element 0 len) x (elim ring [
      | inl a ↦ inl (omega (arith, a))
      | inr a ↦ inr (omega (arith, a, length-rd_buf element 0 len, fits))
    ])

marker-elsewhere :
    (m : Mem) (q : Queue) (tail v x : ℕ)
    → tail + 4 ≤ q.size
    → IsElsewhere q x
    → wr32 m (q.memory + tail) v x ≡ m x
marker-elsewhere m q tail v x fits (ring, register) =
    wr32-SameOn m (q.memory + tail) v x 1
      (elim ring [ inl a ↦ inr (omega (arith, a)) | inr a ↦ inl (omega (arith, a, fits)) ]) x
      (omega arith) (omega arith)

module _ (m : Mem) (q : Queue) (element : Mem) (len : ℕ) (lay : IsLayout q)
    (el : IsElement q element len) (head : head_of m q ≤ q.size) (inside : tail_of m q < q.size)
    (whole : tail_of m q % 4 ≡ 0) where
  same_len : len % 2 ^ 32 ≡ len
  same_len = omega (arith, el.small)

  at_tail :
      (s : PushStatus)
      → tail_of m q + len < q.size
      → IsBounded m q (enqueue m q (tail_of m q) element (len % 2 ^ 32), s)
  at_tail s fits =
      let moved : Mem = enqueue m q (tail_of m q) element len in
      subst (λ n. IsBounded m q (enqueue m q (tail_of m q) element n, s)) (sym same_len)
        (
          omega (arith, tail_of-enqueue m q (tail_of m q) element len lay fits, fits),
          λ x away.
              enqueue-elsewhere m q (tail_of m q) element len x (omega (arith, inside, lay.small))
                (omega (arith, fits)) away,
        )

  at_start :
      (s : PushStatus)
      → len < q.size
      → let m1 : Mem = wr32 m (int_at q.memory (tail_of m q)) queue_wrap_marker in
        IsBounded m q (enqueue m1 q 0 element (len % 2 ^ 32), s)
  at_start s fits =
      let m1 : Mem = wr32 m (int_at q.memory (tail_of m q)) queue_wrap_marker in
      subst (λ n. IsBounded m q (enqueue m1 q 0 element n, s)) (sym same_len)
        (
          omega (arith, tail_of-enqueue m1 q 0 element len lay (omega (arith, fits)), fits),
          λ x away.
              enqueue-elsewhere m1 q 0 element len x (omega arith) (omega (arith, fits)) away
              ∙ ap (λ a. wr32 m a queue_wrap_marker x)
                  (int_at-small q.memory (tail_of m q) (omega (arith, inside, lay.small)))
              ∙ marker-elsewhere m q (tail_of m q) queue_wrap_marker x
                  (omega (arith, inside, whole, lay.whole)) away,
        )

  rounded-IsBounded : IsBounded m q (queue_push_rounded m q element len)
  rounded-IsBounded = elim (dec_lt (tail_of m q) (head_of m q)) [
    | yes behind ↦ elim (dec_lt (len + 4) (head_of m q - tail_of m q)) [
      | yes fits ↦
          subst (IsBounded m q) (sym (push-between m q element len el inside behind fits))
            (at_tail pushed (omega (arith, fits, head)))
      | no full ↦
          subst (IsBounded m q)
            (sym (push-between_full m q element len el inside behind (omega (arith, full))))
            (inside, λ x away. refl)
    ]
    | no up ↦ elim (dec_lt (len + 4) (q.size - tail_of m q)) [
      | yes fits ↦
          subst (IsBounded m q) (sym (push-end m q element len el inside (omega (arith, up)) fits))
            (at_tail pushed (omega (arith, fits)))
      | no full ↦ elim (dec_lt (len + 4) (head_of m q)) [
        | yes fits ↦
            subst (IsBounded m q)
              (sym (
                push-start m q element len el inside (omega (arith, up)) (omega (arith, full))
                  fits))
              (at_start pushed (omega (arith, fits, head)))
        | no low ↦
            subst (IsBounded m q)
              (sym (
                push-full m q element len el inside (omega (arith, up)) (omega (arith, full))
                  (omega (arith, low))))
              (inside, λ x away. refl)
      ]
    ]
  ]

-- In a ring that holds elements, head and tail lie inside, and the tail at a whole word.
pub Holds-inside :
    (m : Mem) (q : Queue) (es : List Bytes)
    → Holds m q es
    → (head_of m q ≤ q.size) × (tail_of m q < q.size) × (tail_of m q % 4 ≡ 0)
Holds-inside m q es (straight s) = (
  omega (arith, Seg-le m q.memory (head_of m q) (tail_of m q) es s.run, s.inside),
  s.inside,
  s.whole,
)
Holds-inside m q es (wrapped w xs ys s e) =
    let up : head_of m q ≤ w = Seg-le m q.memory (head_of m q) w xs s.upper in
    (omega (arith, s.fits), omega (arith, s.fits, s.behind), s.whole)

-- A push of an element to a ring of whole words and at most 2^31 bytes, apart from its control
-- structure, whose head and tail lie inside, the tail at a whole word, writes
-- nothing of the device's memory but the ring and its tail register, and leaves the tail inside the
-- ring, whether or not there is room.
pub queue_push-IsBounded :
    (m : Mem) (q : Queue) (element : Mem) (len : ℕ)
    → IsLayout q
    → IsElement q element len
    → head_of m q ≤ q.size
    → tail_of m q < q.size
    → tail_of m q % 4 ≡ 0
    → IsBounded m q (queue_push m q element len)
unfolding queue_push
queue_push-IsBounded m q element len lay el head inside whole =
    let same : roundup len queue_alignment % 2 ^ 64 ≡ len = omega (arith, el.small, el.whole) in
    subst (λ n. IsBounded m q (queue_push_rounded m q element n)) (sym same)
      (rounded-IsBounded m q element len lay el head inside whole)
