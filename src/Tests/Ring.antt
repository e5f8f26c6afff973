-- ===== src/Tests/Ring.antt =====
-- The ring of mxvp_queue.c, and the commands that go through it, on a memory of a few bytes.
use pcie_host_driver.Prelude.{
  ℕ, ◌≡◌, ◌↔◌, ◌⊎◌, inl, refl, true, ◌||◌, Option, none, some, [], ◌∷◌, arith, ◌==◌, if◌then◌else◌,
}
use pcie_host_driver.Mmio.{Mem, Bytes, rd_buf, rd32}
use pcie_host_driver.Vpu.Queue.{Queue, queue_push, queue_pull, queue_reset, queue_is_empty, pushed}
use pcie_host_driver.Vpu.Queue.Enqueue.{IsLayout, IsElement}
use pcie_host_driver.Vpu.Queue.Fifo.{Holds, straight, PushOutcome, queue_push-PushOutcome}
use pcie_host_driver.Vpu.Queue.Bounds.{IsElsewhere, IsBounded, queue_push-IsBounded}
use pcie_host_driver.Vpu.Queue.Room.{HasRoom, queue_push_iff}
use pcie_host_driver.Vpu.Queue.Pull.{PullOutcome, queue_pull-PullOutcome, queue_reset-empty}
use pcie_host_driver.Vpu.CmdList.{Entry, CmdList}
use pcie_host_driver.Vpu.CmdList.Entries.{Vacant}
use pcie_host_driver.Vpu.Bspec.{
  Mxvp, submit, send_cmd, send_dma, sent, no_space, einval, cmd_exe_buffer, cmd_fence, is_dma_op,
  dmrq_update_handler,
}
use pcie_host_driver.Vpu.Bspec.Send.{
  IsCommand, InFlight, TakenBack, send_cmd-InFlight, send_dma-InFlight,
}
use pcie_host_driver.Vpu.Bspec.Replies.{Answered, dmrq_update_handler-Answered}

-- a ring of 64 bytes behind its control structure
abbrev small_queue : Queue
small_queue = record { control = 0; memory = 16; size = 64 }

small_queue-IsLayout : IsLayout small_queue
small_queue-IsLayout = record { apart = inl (omega arith); small = omega arith; whole = refl }

-- an element of 8 bytes
abbrev eight : Mem
eight a = if a == 0 then 8 else 0

eight-IsElement : IsElement small_queue eight 8
unfolding rd32 rd_buf
eight-IsElement = record { leads = refl; room = omega arith; whole = refl; small = omega arith }

-- the ring with one element of 8 bytes, which is a reply of that length
abbrev one_element : Mem
one_element a = if a == 12 then 8 else if a == 16 then 8 else 0

abbrev the_element : Bytes
the_element = 8 ∷ 0 ∷ 0 ∷ 0 ∷ 0 ∷ 0 ∷ 0 ∷ 0 ∷ []

one_element-Holds : Holds one_element small_queue (the_element ∷ [])
unfolding rd32 rd_buf
one_element-Holds = straight (record {
  run = (record { bytes = refl; leads = refl; room = omega arith }, refl);
  inside = omega arith;
  whole = refl;
})

push_example :
    PushOutcome one_element small_queue
      (the_element ∷ [])
      (rd_buf eight 0 8)
      (queue_push one_element small_queue eight 8).0
      (queue_push one_element small_queue eight 8).1
push_example =
    queue_push-PushOutcome one_element small_queue eight 8 (the_element ∷ []) small_queue-IsLayout
      eight-IsElement one_element-Holds

pull_example :
    PullOutcome small_queue
      (λ n. true)
      (the_element ∷ [])
      (queue_pull 2 (λ n. true) one_element small_queue)
pull_example =
    queue_pull-PullOutcome one_element small_queue (λ n. true) (the_element ∷ []) 0
      small_queue-IsLayout one_element-Holds

reset_example :
    Holds (queue_reset one_element small_queue) small_queue []
    × (queue_is_empty (queue_reset one_element small_queue) small_queue ≡ true)
reset_example = queue_reset-empty one_element small_queue (omega arith)

-- a command of 16 bytes at address 100
abbrev command : ℕ → Mem
command op a = if a == 100 then 16 else if a == 112 then op else 0

command-IsCommand : (op : ℕ) → IsCommand (command op) 100
unfolding rd32 rd_buf
command-IsCommand op = record { room = omega arith; whole = refl; small = omega arith }

abbrev vacant_entry : Option ℕ → Entry
vacant_entry next = record { next = next; command = 0; callback = 0; arg = 0 }

-- a list of two vacant positions
abbrev two_entries : CmdList
two_entries = record { base = vacant_entry (some 1) ∷ vacant_entry none ∷ []; free = some 0 }

two_entries-Vacant : Vacant two_entries (0 ∷ 1 ∷ [])
two_entries-Vacant = record {
  chain = (refl, (refl, refl));
  distinct = ((omega arith, tt), (tt, tt));
  below = (omega arith, (omega arith, tt));
}

abbrev processor : ℕ → Mem → Mxvp
processor op mmio = record {
  mmio = mmio;
  kmem = command op;
  cmdq = small_queue;
  retq = small_queue;
  dmaq = small_queue;
  dmrq = small_queue;
  cmd_list = two_entries;
  dma_list = two_entries;
  seqno = 3;
}

send_cmd_example :
    let s = processor cmd_fence one_element in
    let (s', status) = send_cmd s 100 7 9 in
    let r = submit s.mmio s.kmem s.seqno s.cmdq s.cmd_list 100 7 9 in
    let op = rd32 s.kmem 112 in
    if (op == cmd_exe_buffer) || (op == cmd_fence)
    then ((status ≡ sent) × InFlight s.cmdq (the_element ∷ []) 100 7 9 0 (1 ∷ []) r
        ⊎ (status ≡ no_space) × TakenBack s.mmio 0 (1 ∷ []) r)
      × (s'.mmio ≡ r.mmio)
      × (s'.cmd_list ≡ r.list)
      × (s'.dma_list ≡ s.dma_list)
      × ((x : ℕ) → IsElsewhere s.cmdq x → s'.mmio x ≡ s.mmio x)
    else (status ≡ einval) × (s' ≡ s)
send_cmd_example =
    send_cmd-InFlight (processor cmd_fence one_element) 100 7 9 (the_element ∷ []) 0 (1 ∷ [])
      (omega arith) (command-IsCommand cmd_fence) small_queue-IsLayout one_element-Holds
      two_entries-Vacant (omega arith)

send_dma_example :
    let s = processor 2 one_element in
    let (s', status) = send_dma s 100 7 9 in
    let r = submit s.mmio s.kmem s.seqno s.dmaq s.dma_list 100 7 9 in
    let op = rd32 s.kmem 112 in
    if is_dma_op op
    then ((status ≡ sent) × InFlight s.dmaq (the_element ∷ []) 100 7 9 0 (1 ∷ []) r
        ⊎ (status ≡ no_space) × TakenBack s.mmio 0 (1 ∷ []) r)
      × (s'.mmio ≡ r.mmio)
      × (s'.dma_list ≡ r.list)
      × (s'.cmd_list ≡ s.cmd_list)
      × ((x : ℕ) → IsElsewhere s.dmaq x → s'.mmio x ≡ s.mmio x)
    else (status ≡ einval) × (s' ≡ s)
send_dma_example =
    send_dma-InFlight (processor 2 one_element) 100 7 9 (the_element ∷ []) 0 (1 ∷ []) (omega arith)
      (command-IsCommand 2) small_queue-IsLayout one_element-Holds two_entries-Vacant (omega arith)

-- the ring with one reply of 16 bytes, whose id leads to position 1
abbrev one_reply : Mem
one_reply a = if a == 12 then 16 else if a == 16 then 16 else if a == 20 then 1 else 0

abbrev the_reply : Bytes
the_reply = 16 ∷ 0 ∷ 0 ∷ 0 ∷ 1 ∷ 0 ∷ 0 ∷ 0 ∷ 0 ∷ 0 ∷ 0 ∷ 0 ∷ 0 ∷ 0 ∷ 0 ∷ 0 ∷ []

one_reply-Holds : Holds one_reply small_queue (the_reply ∷ [])
unfolding rd32 rd_buf
one_reply-Holds = straight (record {
  run = (record { bytes = refl; leads = refl; room = omega arith }, refl);
  inside = omega arith;
  whole = refl;
})

dmrq_example :
    let (s', calls, ended) = dmrq_update_handler (λ n. true) (λ n. eight) (processor 2 one_reply) in
    Answered 20 small_queue two_entries
      (the_reply ∷ [])
      (record { mmio = s'.mmio; list = s'.dma_list; calls = calls; ended = ended })
    × (s'.cmd_list ≡ two_entries)
dmrq_example =
    dmrq_update_handler-Answered (λ n. true) (λ n. eight) (processor 2 one_reply) (the_reply ∷ [])
      (λ n. refl) small_queue-IsLayout (omega arith, tt) one_reply-Holds

room_example :
    ((queue_push one_element small_queue eight 8).1 ≡ pushed) ↔ HasRoom one_element small_queue 8
unfolding rd32 rd_buf
room_example = queue_push_iff one_element small_queue eight 8 eight-IsElement (omega arith)

bounded_example : IsBounded one_element small_queue (queue_push one_element small_queue eight 8)
unfolding rd32 rd_buf
bounded_example =
    queue_push-IsBounded one_element small_queue eight 8 small_queue-IsLayout eight-IsElement
      (omega arith) (omega arith) refl
