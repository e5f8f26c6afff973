-- ===== src/Vpu/Bspec/Replies.antt =====
-- What the reply handlers do with the replies in a queue.
use pcie_host_driver.Prelude.{
  ℕ, zero, suc, ◌+◌, ◌≤◌, ◌≡◌, ◌≢◌, refl, sym, ap, ◌∙◌, inl, inr, Bool, true, false, Option, none,
  some, List, [], ◌∷◌, ◌++◌, arith, length, take, drop, ltb, if◌then◌else◌, Bool-cases, lt→ltb,
  le→ltb-false,
}
use mathlib.Core.Bool.{false≢true}
use pcie_host_driver.Mmio.{Mem, Bytes, le_value, rd_buf, wr_buf, rd16, rd32}
use pcie_host_driver.Mmio.Laws.{rd_buf-wr_buf}
use pcie_host_driver.Vpu.Queue.{Queue, queue_pull, queue_is_empty}
use pcie_host_driver.Vpu.Queue.Enqueue.{IsLayout}
use pcie_host_driver.Vpu.Queue.Fifo.{Holds}
use pcie_host_driver.Vpu.Queue.Pull.{PullOutcome, queue_pull-PullOutcome, queue_is_empty_iff}
use pcie_host_driver.Vpu.CmdList.{CmdList, Reply, Call, reply_to_command}
use pcie_host_driver.Vpu.Bspec.{
  Mxvp, reply_of, drained, requeued, Handled, update_handler, dmrq_update_handler,
  retq_update_handler,
}

-- the fields of a reply whose bytes are all there
abbrev pub reply_from : Bytes → Reply
reply_from bytes = record {
  length_field = le_value (take 4 bytes);
  id = le_value (take 4 (drop 4 bytes));
  version = le_value (take 2 (drop 8 bytes));
  status = le_value (take 4 (drop 12 bytes));
}

-- Each element is as long as the structure of a reply.
abbrev pub AreReplies : List Bytes → Type 0
AreReplies [] = Unit {0}
AreReplies (e ∷ es) = (16 ≤ length e) × AreReplies es

-- A part of what has been read is what a read of that part gives.
rd_buf-take :
    (k : Mem) (a n : ℕ) (bs : Bytes)
    → n ≤ length bs
    → rd_buf k a (length bs) ≡ bs
    → rd_buf k a n ≡ take n bs
unfolding rd_buf
rd_buf-take k a zero bs le e = refl
rd_buf-take k a (suc n) [] le e = absurd (omega arith)
rd_buf-take k a (suc n) (b ∷ bs) le e =
    let first : k a ≡ b = cc in
    let rest : rd_buf k (a + 1) (length bs) ≡ bs = cc in
    let ih : rd_buf k (a + 1) n ≡ take n bs = rd_buf-take k (a + 1) n bs (omega arith) rest in cc

rd_buf-drop :
    (k : Mem) (a o n : ℕ) (bs : Bytes)
    → o + n ≤ length bs
    → rd_buf k a (length bs) ≡ bs
    → rd_buf k (a + o) n ≡ take n (drop o bs)
unfolding rd_buf
rd_buf-drop k a zero n bs le e =
    let same : a + 0 ≡ a = omega arith in rw same (rd_buf-take k a n bs (omega arith) e)
rd_buf-drop k a (suc o) n [] le e = absurd (omega arith)
rd_buf-drop k a (suc o) n (b ∷ bs) le e =
    let same : a + suc o ≡ a + 1 + o = omega arith in
    let rest : rd_buf k (a + 1) (length bs) ≡ bs = cc in
    rw same (rd_buf-drop k (a + 1) o n bs (omega arith) rest)

abbrev fields : Bytes → Bytes → Bytes → Bytes → Reply
fields a b c d = record {
  length_field = le_value a;
  id = le_value b;
  version = le_value c;
  status = le_value d;
}

reply_of-long :
    (heap : Mem) (bytes : Bytes) → 16 ≤ length bytes → reply_of heap bytes ≡ reply_from bytes
unfolding reply_of rd32 rd16
reply_of-long heap bytes long =
    let k : Mem = wr_buf heap 0 bytes in
    let all = rd_buf-wr_buf heap 0 bytes in
    let part : (o n : ℕ) → o + n ≤ 16 → rd_buf k (0 + o) n ≡ take n (drop o bytes) =
      λ o n le. rd_buf-drop k 0 o n bytes (omega arith) all in
    let w : ℕ → ℕ → Bytes = λ o. rd_buf k (0 + o) in
    let t : ℕ → ℕ → Bytes = λ o n. take n (drop o bytes) in
    ap (λ l. fields l (w 4 4) (w 8 2) (w 12 4)) (part 0 4 (omega arith))
    ∙ ap (λ l. fields (t 0 4) l (w 8 2) (w 12 4)) (part 4 4 (omega arith))
    ∙ ap (λ l. fields (t 0 4) (t 4 4) l (w 12 4)) (part 8 2 (omega arith))
    ∙ ap (λ l. fields (t 0 4) (t 4 4) (t 8 2) l) (part 12 4 (omega arith))

-- The replies `es` answered one after another.
unfoldable pub answer : CmdList → List Bytes → CmdList × List Call
answer list [] = (list, [])
answer list (e ∷ es) =
    let (list', calls) = reply_to_command list (reply_from e) in
    let (list'', more) = answer list' es in (list'', calls ++ more)

-- The outcome of a handler with a budget for a queue that holds `es`.
pub record Answered (budget : ℕ) (queue : Queue) (list : CmdList) (es : List Bytes) (r : Handled)
    : Type 0 where
  pub list_after : r.list ≡ (answer list (take budget es)).0
  pub calls_made : r.calls ≡ (answer list (take budget es)).1
  pub left : Holds r.mmio queue (drop budget es)
  pub ending : r.ended ≡ (if ltb (length es) budget then drained else requeued)

update_handler-empty :
    (budget : ℕ) (alloc : ℕ → Bool) (heap : ℕ → Mem) (mmio : Mem) (queue : Queue) (list : CmdList)
    → Holds mmio queue []
    → Answered (suc budget) queue list [] (update_handler (suc budget) alloc heap mmio queue list)
unfolding update_handler answer
update_handler-empty budget alloc heap mmio queue list h =
    rw ((queue_is_empty_iff mmio queue [] h).1 refl) (record {
      list_after = refl;
      calls_made = refl;
      left = h;
      ending = rw (lt→ltb 0 (suc budget) (omega arith));
    })

cons-ne-nil : {e : Bytes} {es : List Bytes} → e ∷ es ≢ []
cons-ne-nil p = cc

module _ (alloc : ℕ → Bool) (heap : ℕ → Mem) (plenty : (n : ℕ) → alloc n ≡ true) (queue : Queue)
    (lay : IsLayout queue) where
  update_handler-some :
      (budget : ℕ) (mmio mmio' : Mem) (list : CmdList) (e : Bytes)
      → queue_is_empty mmio queue ≡ false
      → queue_pull 2 alloc mmio queue ≡ some (mmio', some e)
      → let (list', calls) = reply_to_command list (reply_of (heap budget) e) in
        let rest = update_handler budget alloc heap mmio' queue list' in
        update_handler (suc budget) alloc heap mmio queue list
        ≡ record rest { calls = calls ++ rest.calls }
  unfolding update_handler
  update_handler-some budget mmio mmio' list e full got = rw (full) (rw (got, update_handler))

  not-empty :
      (mmio : Mem) (e : Bytes) (es : List Bytes)
      → Holds mmio queue (e ∷ es)
      → queue_is_empty mmio queue ≡ false
  not-empty mmio e es h = elim (Bool-cases (queue_is_empty mmio queue)) [
    | inl empty ↦ absurd (cons-ne-nil ((queue_is_empty_iff mmio queue (e ∷ es) h).0 empty))
    | inr full ↦ full
  ]

  pull-some :
      (mmio : Mem) (e : Bytes) (es : List Bytes)
      → Holds mmio queue (e ∷ es)
      → (mmio' : Mem) × (queue_pull 2 alloc mmio queue ≡ some (mmio', some e))
        × Holds mmio' queue es
  pull-some mmio e es h =
      by (queue_pull 2 alloc mmio queue) refl
        (queue_pull-PullOutcome mmio queue alloc (e ∷ es) 0 lay h)
    where
      by :
          (o : Option (Mem × Option Bytes))
          → queue_pull 2 alloc mmio queue ≡ o
          → PullOutcome queue alloc (e ∷ es) o
          → (mmio' : Mem) × (queue_pull 2 alloc mmio queue ≡ some (mmio', some e))
            × Holds mmio' queue es
      by none eq p = absurd p
      by (some (mmio', none)) eq p = absurd (false≢true (sym p.1 ∙ plenty (length e)))
      by (some (mmio', some x)) eq p = (mmio', eq ∙ ap (λ y. some (mmio', some y)) p.2, p.0)

  -- With memory for each reply, a handler answers the replies in the queue, oldest first, up to its
  -- budget. It ends with the queue empty if they are fewer, and else asks to be run again.
  pub update_handler-Answered :
      (budget : ℕ) (mmio : Mem) (list : CmdList) (es : List Bytes)
      → AreReplies es
      → Holds mmio queue es
      → Answered budget queue list es (update_handler budget alloc heap mmio queue list)
  unfolding update_handler answer
  update_handler-Answered zero mmio list es long h = record {
    list_after = refl;
    calls_made = refl;
    left = h;
    ending = rw (le→ltb-false (length es) 0 (omega arith));
  }
  update_handler-Answered (suc budget) mmio list [] long h =
      update_handler-empty budget alloc heap mmio queue list h
  update_handler-Answered (suc budget) mmio list (e ∷ es) long h =
      let (mmio', got, h') = pull-some mmio e es h in
      let list' = (reply_to_command list (reply_from e)).0 in
      let ih = update_handler-Answered budget mmio' list' es long.1 h' in
      rw
        (
          update_handler-some budget mmio mmio' list e (not-empty mmio e es h) got,
          reply_of-long (heap budget) e long.0,
        )
        (record {
          list_after = ih.list_after;
          calls_made = ap (λ c. (reply_to_command list (reply_from e)).1 ++ c) ih.calls_made;
          left = ih.left;
          ending = ih.ending ∙ ground arith;
        })

-- `mxvp_dmrq_update_handler` answers up to 20 replies of the DMA reply queue from the DMA
-- list, oldest first, where each reply is as long as its structure and there is memory for it: it leaves
-- the others in the queue, and asks to be run again exactly where there are 20 or more.
pub dmrq_update_handler-Answered :
    (alloc : ℕ → Bool) (heap : ℕ → Mem) (s : Mxvp) (es : List Bytes)
    → ((n : ℕ) → alloc n ≡ true)
    → IsLayout s.dmrq
    → AreReplies es
    → Holds s.mmio s.dmrq es
    → let (s', calls, ended) = dmrq_update_handler alloc heap s in
      Answered 20 s.dmrq s.dma_list es
        (record { mmio = s'.mmio; list = s'.dma_list; calls = calls; ended = ended })
      × (s'.cmd_list ≡ s.cmd_list)
unfolding dmrq_update_handler
dmrq_update_handler-Answered alloc heap s es plenty lay long h =
    (update_handler-Answered alloc heap plenty s.dmrq lay 20 s.mmio s.dma_list es long h, refl)

-- `mxvp_retq_update_handler` answers up to 20 replies of the reply queue from the command list.
pub retq_update_handler-Answered :
    (alloc : ℕ → Bool) (heap : ℕ → Mem) (s : Mxvp) (es : List Bytes)
    → ((n : ℕ) → alloc n ≡ true)
    → IsLayout s.retq
    → AreReplies es
    → Holds s.mmio s.retq es
    → let (s', calls, ended) = retq_update_handler alloc heap s in
      Answered 20 s.retq s.cmd_list es
        (record { mmio = s'.mmio; list = s'.cmd_list; calls = calls; ended = ended })
      × (s'.dma_list ≡ s.dma_list)
unfolding retq_update_handler
retq_update_handler-Answered alloc heap s es plenty lay long h =
    (update_handler-Answered alloc heap plenty s.retq lay 20 s.mmio s.cmd_list es long h, refl)
