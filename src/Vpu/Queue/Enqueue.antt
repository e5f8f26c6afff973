-- ===== src/Vpu/Queue/Enqueue.antt =====
-- What `enqueue` of mxvp_queue.c leaves: the element in its place, the new tail, all else as it was.
use pcie_host_driver.Prelude.{
  ℕ, zero, suc, take, ◌+◌, ◌%◌, ◌^◌, ◌≤◌, ◌<◌, ◌≡◌, ◌∙◌, sym, ap, ◌⊎◌, inr, arith, length, refl,
  lt→ltb,
}
use pcie_host_driver.Mmio.{Mem, le_value, rd_buf, wr_buf, rd32, wr32}
use pcie_host_driver.Mmio.Laws.{
  Apart, rd_buf-SameOn, rd32-SameOn, rd32-wr32, wr32-SameOn, wr_buf-SameOn, wr_buf-outside,
  length-rd_buf, rd_buf-wr_buf,
}
use pcie_host_driver.Vpu.Queue.{
  Queue, head_of, tail_of, qcontrol_head, qcontrol_tail, int_at, enqueue,
}
use pcie_host_driver.Vpu.Queue.Seg.{At}

-- The control structure lies outside the ring, whose size is whole words and at most
-- 2^31, so that no offset into it is a negative `int`.
pub record IsLayout (q : Queue) : Type 0 where
  pub apart : Apart q.control 16 q.memory q.size
  pub small : q.size ≤ 2 ^ 31
  pub whole : q.size % 4 ≡ 0

-- What a caller of `push` hands over: `len` bytes, whole words, of which the first word is `len`.
pub record IsElement (q : Queue) (element : Mem) (len : ℕ) : Type 0 where
  pub leads : rd32 element 0 ≡ len
  pub room : 4 ≤ len
  pub whole : len % 4 ≡ 0
  pub small : len + 8 ≤ 2 ^ 32

-- Equal bytes read as equal words.
rd32-rd_buf : (m k : Mem) (a b n : ℕ) → 4 ≤ n → rd_buf k b n ≡ rd_buf m a n → rd32 k b ≡ rd32 m a
unfolding rd32 rd_buf
rd32-rd_buf m k a b zero h e = absurd (omega arith)
rd32-rd_buf m k a b (suc zero) h e = absurd (omega arith)
rd32-rd_buf m k a b (suc (suc zero)) h e = absurd (omega arith)
rd32-rd_buf m k a b (suc (suc (suc zero))) h e = absurd (omega arith)
rd32-rd_buf m k a b (suc (suc (suc (suc n)))) h e = ap (λ l. le_value (take 4 l)) e

-- below 2^31 an offset is what it says
pub int_at-small : (base offset : ℕ) → offset < 2 ^ 31 → int_at base offset ≡ base + offset
unfolding int_at
int_at-small base offset h = rw (lt→ltb offset (2 ^ 31) h) refl

module _ (m : Mem) (q : Queue) (tail : ℕ) (element : Mem) (len : ℕ) where
  abbrev pub placed : Mem
  placed =
      wr32 (wr_buf m (q.memory + tail) (rd_buf element 0 len)) (q.control + qcontrol_tail)
        ((tail + len) % 2 ^ 32)

  pub enqueue-placed : tail < 2 ^ 31 → enqueue m q tail element len ≡ placed
  unfolding enqueue
  enqueue-placed h = rw (int_at-small q.memory tail h) refl

  -- bytes of the ring other than the element's are kept
  pub enqueue-outside :
      IsLayout q
      → tail < q.size
      → (x : ℕ) → q.memory ≤ x
      → x < q.memory + q.size
      → (x < q.memory + tail) ⊎ (q.memory + tail + len ≤ x)
      → enqueue m q tail element len x ≡ m x
  enqueue-outside lay fits x lo hi out =
      ap (λ k. k x) (enqueue-placed (omega (arith, fits, lay.small)))
      ∙ wr32-SameOn (wr_buf m (q.memory + tail) (rd_buf element 0 len)) (q.control + qcontrol_tail)
          ((tail + len) % 2 ^ 32) x 1 (omega (arith, lay.apart)) x (omega arith) (omega arith)
      ∙ wr_buf-outside m (q.memory + tail) (rd_buf element 0 len) x
          (omega (arith, length-rd_buf element 0 len))

  pub tail_of-enqueue :
      IsLayout q → tail + len < q.size → tail_of (enqueue m q tail element len) q ≡ tail + len
  tail_of-enqueue lay fits = omega (
    arith,
    ap (λ k. tail_of k q) (enqueue-placed (omega (arith, fits, lay.small))),
    rd32-wr32 (wr_buf m (q.memory + tail) (rd_buf element 0 len)) (q.control + qcontrol_tail)
        ((tail + len) % 2 ^ 32),
    lay.small,
  )

  pub head_of-enqueue :
      IsLayout q → tail + len < q.size → head_of (enqueue m q tail element len) q ≡ head_of m q
  head_of-enqueue lay fits =
      ap (λ k. head_of k q) (enqueue-placed (omega (arith, fits, lay.small)))
      ∙ rd32-SameOn (wr_buf m (q.memory + tail) (rd_buf element 0 len)) placed
          (q.control + qcontrol_head)
          (wr32-SameOn (wr_buf m (q.memory + tail) (rd_buf element 0 len))
            (q.control + qcontrol_tail) ((tail + len) % 2 ^ 32) (q.control + qcontrol_head) 4
            (inr (omega arith)))
      ∙ rd32-SameOn m (wr_buf m (q.memory + tail) (rd_buf element 0 len))
          (q.control + qcontrol_head)
          (wr_buf-SameOn m (q.memory + tail) (rd_buf element 0 len) (q.control + qcontrol_head) 4
            (omega (arith, length-rd_buf element 0 len, lay.apart)))

  -- the bytes copied are the element's
  rd_buf-enqueue :
      IsLayout q
      → tail + len < q.size
      → rd_buf (enqueue m q tail element len) (q.memory + tail) (length (rd_buf element 0 len))
        ≡ rd_buf element 0 len
  rd_buf-enqueue lay fits =
      let written : Mem = wr_buf m (q.memory + tail) (rd_buf element 0 len) in
      ap (λ k. rd_buf k (q.memory + tail) (length (rd_buf element 0 len)))
        (enqueue-placed (omega (arith, fits, lay.small)))
      ∙ rd_buf-SameOn written placed (q.memory + tail) (length (rd_buf element 0 len)) (
          wr32-SameOn written (q.control + qcontrol_tail) ((tail + len) % 2 ^ 32) (q.memory + tail)
            (length (rd_buf element 0 len)) (omega (arith, length-rd_buf element 0 len, lay.apart)))
      ∙ rd_buf-wr_buf m (q.memory + tail) (rd_buf element 0 len)

  -- the element stands at the old tail
  pub At-enqueue :
      IsLayout q
      → IsElement q element len
      → tail + len < q.size
      → At (enqueue m q tail element len) (q.memory + tail) (rd_buf element 0 len)
  At-enqueue lay el fits = record {
    bytes = rd_buf-enqueue lay fits;
    leads =
        rd32-rd_buf element (enqueue m q tail element len) 0 (q.memory + tail) len el.room
          (rw (length-rd_buf element 0 len) at (rd_buf-enqueue lay fits))
        ∙ el.leads
        ∙ sym (length-rd_buf element 0 len);
    room = omega (arith, length-rd_buf element 0 len);
  }
