-- ===== src/Vpu/Queue/Room.antt =====
-- vpu/mxvp/mxvp_queue.c: when a push has room.
use pcie_host_driver.Prelude.{
  ℕ, ◌+◌, ◌-◌, ◌%◌, ◌^◌, ◌≤◌, ◌<◌, ◌≡◌, refl, sym, ap, subst, dec_lt, ◌∙◌, ◌↔◌, ◌⊎◌, inl, inr,
  arith, lt→ltb, lt→leb-false, le→ltb-false, le→leb,
}
use pcie_host_driver.Mmio.{Mem, wr32}
use pcie_host_driver.Vpu.Queue.{
  Queue, head_of, tail_of, roundup, queue_alignment, space_req, pushed, enospc, queue_push_rounded,
  queue_push, queue_wrap_marker, int_at, enqueue,
}
use pcie_host_driver.Vpu.Queue.Enqueue.{IsElement}

-- The element and a marker fit strictly between the tail and the end, or strictly before the head, or
-- strictly between the tail and a head above it.
abbrev pub HasRoom : Mem → Queue → ℕ → Type 0
HasRoom m q len =
    ((head_of m q ≤ tail_of m q) × ((tail_of m q + len + 4 < q.size) ⊎ (len + 4 < head_of m q)))
    ⊎ ((tail_of m q < head_of m q) × (tail_of m q + len + 4 < head_of m q))

pushed-enospc : ¬ (pushed ≡ enospc)
pushed-enospc e = cc e

module _ (m : Mem) (q : Queue) (element : Mem) (len : ℕ) (el : IsElement q element len)
    (inside : tail_of m q < q.size) where
  needed : space_req len ≡ len + 4
  unfolding space_req
  needed = omega (arith, el.small)

  pub push-end :
      head_of m q ≤ tail_of m q
      → len + 4 < q.size - tail_of m q
      → queue_push_rounded m q element len
        ≡ (enqueue m q (tail_of m q) element (len % 2 ^ 32), pushed)
  unfolding queue_push_rounded
  push-end up fits =
      rw
        (
          le→leb (head_of m q) (tail_of m q) up,
          le→ltb-false q.size (tail_of m q) (omega (arith, inside)),
          needed,
          lt→ltb (len + 4) (q.size - tail_of m q) fits,
        )
        refl

  pub push-start :
      head_of m q ≤ tail_of m q
      → q.size - tail_of m q ≤ len + 4
      → len + 4 < head_of m q
      → queue_push_rounded m q element len ≡ (
        enqueue
            (wr32 m (int_at q.memory (tail_of m q)) queue_wrap_marker)
            q
            0
            element
            (len % 2 ^ 32),
        pushed,
      )
  unfolding queue_push_rounded
  push-start up full fits =
      rw
        (
          le→leb (head_of m q) (tail_of m q) up,
          le→ltb-false q.size (tail_of m q) (omega (arith, inside)),
          needed,
          le→ltb-false (len + 4) (q.size - tail_of m q) full,
          lt→ltb (len + 4) (head_of m q) fits,
        )
        refl

  pub push-full :
      head_of m q ≤ tail_of m q
      → q.size - tail_of m q ≤ len + 4
      → head_of m q ≤ len + 4
      → queue_push_rounded m q element len ≡ (m, enospc)
  unfolding queue_push_rounded
  push-full up full low =
      rw
        (
          le→leb (head_of m q) (tail_of m q) up,
          le→ltb-false q.size (tail_of m q) (omega (arith, inside)),
          needed,
          le→ltb-false (len + 4) (q.size - tail_of m q) full,
          le→ltb-false (len + 4) (head_of m q) low,
        )
        refl

  pub push-between :
      tail_of m q < head_of m q
      → len + 4 < head_of m q - tail_of m q
      → queue_push_rounded m q element len
        ≡ (enqueue m q (tail_of m q) element (len % 2 ^ 32), pushed)
  unfolding queue_push_rounded
  push-between behind fits =
      rw
        (
          lt→leb-false (head_of m q) (tail_of m q) behind,
          lt→ltb (tail_of m q) (head_of m q) behind,
          needed,
          lt→ltb (len + 4) (head_of m q - tail_of m q) fits,
        )
        refl

  pub push-between_full :
      tail_of m q < head_of m q
      → head_of m q - tail_of m q ≤ len + 4
      → queue_push_rounded m q element len ≡ (m, enospc)
  unfolding queue_push_rounded
  push-between_full behind full =
      rw
        (
          lt→leb-false (head_of m q) (tail_of m q) behind,
          lt→ltb (tail_of m q) (head_of m q) behind,
          needed,
          le→ltb-false (len + 4) (head_of m q - tail_of m q) full,
        )
        refl

  yes_room :
      (m' : Mem)
      → queue_push_rounded m q element len ≡ (m', pushed)
      → HasRoom m q len
      → ((queue_push_rounded m q element len).1 ≡ pushed) ↔ HasRoom m q len
  yes_room m' e room = ((λ p. room), (λ r. ap (λ r. r.1) e))

  no_room :
      queue_push_rounded m q element len ≡ (m, enospc)
      → ¬ HasRoom m q len
      → ((queue_push_rounded m q element len).1 ≡ pushed) ↔ HasRoom m q len
  no_room e none_left =
      ((λ p. absurd (pushed-enospc (sym p ∙ ap (λ r. r.1) e))), (λ r. absurd (none_left r)))

  rounded_iff : ((queue_push_rounded m q element len).1 ≡ pushed) ↔ HasRoom m q len
  rounded_iff =
      let moved : Mem = enqueue m q (tail_of m q) element (len % 2 ^ 32) in
      let wrapped : Mem =
        enqueue (wr32 m (int_at q.memory (tail_of m q)) queue_wrap_marker) q 0 element
          (len % 2 ^ 32) in
      elim (dec_lt (tail_of m q) (head_of m q)) [
        | yes behind ↦ elim (dec_lt (len + 4) (head_of m q - tail_of m q)) [
          | yes fits ↦
              yes_room moved (push-between behind fits) (inr (behind, omega (arith, behind, fits)))
          | no full ↦ no_room (push-between_full behind (omega (arith, full))) (λ r. elim r [
            | inl x ↦ omega (arith, x.0, behind)
            | inr x ↦ full (omega (arith, x.1, behind))
          ])
        ]
        | no up ↦ elim (dec_lt (len + 4) (q.size - tail_of m q)) [
          | yes fits ↦
              yes_room moved (push-end (omega (arith, up)) fits)
                (inl (omega (arith, up), inl (omega (arith, fits, inside))))
          | no full ↦ elim (dec_lt (len + 4) (head_of m q)) [
            | yes fits ↦
                yes_room wrapped (push-start (omega (arith, up)) (omega (arith, full)) fits)
                  (inl (omega (arith, up), inr fits))
            | no low ↦
                no_room (push-full (omega (arith, up)) (omega (arith, full)) (omega (arith, low)))
                  (λ r. elim r [
                    | inl x ↦ elim x.1 [ inl y ↦ full (omega (arith, y, inside)) | inr y ↦ low y ]
                    | inr x ↦ up x.0
                  ])
          ]
        ]
      ]

-- A push to a ring whose tail lies inside succeeds exactly if the element and a marker fit strictly
-- between the tail and the end, strictly before the head, or strictly between the tail and a head
-- above it.
pub queue_push_iff :
    (m : Mem) (q : Queue) (element : Mem) (len : ℕ)
    → IsElement q element len
    → tail_of m q < q.size
    → ((queue_push m q element len).1 ≡ pushed) ↔ HasRoom m q len
unfolding queue_push
queue_push_iff m q element len el inside =
    let same : roundup len queue_alignment % 2 ^ 64 ≡ len = omega (arith, el.small, el.whole) in
    subst (λ n. ((queue_push_rounded m q element n).1 ≡ pushed) ↔ HasRoom m q len) (sym same)
      (rounded_iff m q element len el inside)
