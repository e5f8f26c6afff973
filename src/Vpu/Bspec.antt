-- ===== src/Vpu/Bspec.antt =====
-- vpu/mxvp/mxvp_bspec.c: sending commands to the processor and taking its replies.
pub mod Send
pub mod Replies
use pcie_host_driver.Prelude.{
  ℕ, zero, suc, ◌+◌, ◌-◌, ◌*◌, ◌/◌, ◌%◌, ◌^◌, Bool, true, false, ◌&&◌, ◌||◌, Option, none, some,
  List, [], ◌∷◌, ◌++◌, ltb, ◌==◌, if◌then◌else◌, take, drop,
}
use pcie_host_driver.Mmio.{Mem, Bytes, offset, wr_buf, rd16, rd32, wr32, wr8}
use pcie_host_driver.Vpu.Queue.{
  Queue, PushStatus, pushed, enospc, queue_push, queue_pull, queue_is_empty,
}
use pcie_host_driver.Vpu.CmdList.{
  CmdList, Reply, Call, cmd_list_add, cmd_list_remove, cmd_list_flush, status_discarded,
  generate_id, reply_to_command,
}

-- operations of commands
abbrev pub cmd_exe_buffer : ℕ
cmd_exe_buffer = 0x01

abbrev pub cmd_dma_read : ℕ
cmd_dma_read = 0x02

abbrev pub cmd_dma_write : ℕ
cmd_dma_write = 0x03

abbrev pub cmd_multi_dma_read : ℕ
cmd_multi_dma_read = 0x04

abbrev pub cmd_multi_dma_write : ℕ
cmd_multi_dma_write = 0x05

abbrev pub cmd_mem_fill : ℕ
cmd_mem_fill = 0x06

abbrev pub cmd_fence : ℕ
cmd_fence = 0x07

-- The part of `struct mxvp` that commands go through, with the device's memory `mmio` and the
-- kernel's memory `kmem`, where the clients build their commands.
pub record Mxvp : Type 0 where
  pub mmio : Mem
  pub kmem : Mem
  pub cmdq : Queue
  pub retq : Queue
  pub dmaq : Queue
  pub dmrq : Queue
  pub cmd_list : CmdList
  pub dma_list : CmdList
  pub seqno : ℕ

-- 0, -EINVAL, or -ENOSPC
pub data SendStatus : Type 0 where
  sent einval no_space : SendStatus

pub record Submitted : Type 0 where
  pub mmio : Mem
  pub kmem : Mem
  pub list : CmdList
  pub seqno : ℕ
  pub status : SendStatus

-- The body that the switches of `mxvp_send_cmd` and `mxvp_send_dma` share but for the queue and the
-- list: save the command, give it its id, push it, and take it back where the push fails.
unfoldable pub submit : Mem → Mem → ℕ → Queue → CmdList → ℕ → ℕ → ℕ → Submitted
submit mmio kmem seqno queue list cmd cb arg =
    let (list', position) = cmd_list_add list cmd cb arg in
    elim position [
      | none ↦ record { mmio = mmio; kmem = kmem; list = list'; seqno = seqno; status = no_space }
      | some i ↦
          let kmem' = wr32 kmem (cmd + 4) (generate_id seqno i) in
          let (mmio', s) = queue_push mmio queue (offset kmem' cmd) (rd32 kmem' cmd) in
          elim s [
            | pushed ↦ record {
              mmio = mmio';
              kmem = kmem';
              list = list';
              seqno = (seqno + 1) % 2 ^ 32;
              status = sent;
            }
            | enospc ↦ record {
              mmio = mmio';
              kmem = kmem';
              list = (cmd_list_remove list' i).0;
              seqno = (seqno + 1) % 2 ^ 32;
              status = no_space;
            }
          ]
    ]

-- `cmd` is the address of the command, and 0 is NULL.
unfoldable pub send_cmd : Mxvp → ℕ → ℕ → ℕ → Mxvp × SendStatus
send_cmd s cmd cb arg =
    let op = rd32 s.kmem (cmd + 12) in
    let r = submit s.mmio s.kmem s.seqno s.cmdq s.cmd_list cmd cb arg in
    if cmd == 0
    then (s, einval)
    else if (op == cmd_exe_buffer) || (op == cmd_fence)
    then (record s { mmio = r.mmio; kmem = r.kmem; cmd_list = r.list; seqno = r.seqno }, r.status)
    else (s, einval)

abbrev pub is_dma_op : ℕ → Bool
is_dma_op op =
    (op == cmd_dma_read)
    || ((op == cmd_dma_write)
        || ((op == cmd_multi_dma_read)
            || ((op == cmd_multi_dma_write) || ((op == cmd_mem_fill) || (op == cmd_fence)))))

unfoldable pub send_dma : Mxvp → ℕ → ℕ → ℕ → Mxvp × SendStatus
send_dma s cmd cb arg =
    let op = rd32 s.kmem (cmd + 12) in
    let r = submit s.mmio s.kmem s.seqno s.dmaq s.dma_list cmd cb arg in
    if cmd == 0
    then (s, einval)
    else if is_dma_op op
    then (record s { mmio = r.mmio; kmem = r.kmem; dma_list = r.list; seqno = r.seqno }, r.status)
    else (s, einval)

-- `struct mxvp_reply` read from where the element has been copied to. `heap` is the memory there before
-- the copy: of a shorter element than the structure, what is read beyond its end is the heap's.
unfoldable pub reply_of : Mem → Bytes → Reply
reply_of heap bytes =
    let reply = wr_buf heap 0 bytes in
    record {
      length_field = rd32 reply 0;
      id = rd32 reply 4;
      version = rd16 reply 8;
      status = rd32 reply 12;
    }

-- How a reply handler ends: with the queue empty, with its budget used up, which queues the work
-- again, on a NULL reply, which the handler dereferences, or never, in a queue of markers.
pub data HandlerEnd : Type 0 where
  drained requeued null_reply stuck : HandlerEnd

pub record Handled : Type 0 where
  pub mmio : Mem
  pub list : CmdList
  pub calls : List Call
  pub ended : HandlerEnd

-- The loop that `mxvp_dmrq_update_handler` and `mxvp_retq_update_handler` share but for the queue
-- and the list. A pull is given two rounds; `heap n` is what kmalloc gives with `n` rounds left.
unfoldable pub update_handler : ℕ → (ℕ → Bool) → (ℕ → Mem) → Mem → Queue → CmdList → Handled
update_handler zero alloc heap mmio queue list = record {
  mmio = mmio;
  list = list;
  calls = [];
  ended = requeued;
}
update_handler (suc budget) alloc heap mmio queue list =
    if queue_is_empty mmio queue
    then record { mmio = mmio; list = list; calls = []; ended = drained }
    else elim (queue_pull 2 alloc mmio queue) [
      | none ↦ record { mmio = mmio; list = list; calls = []; ended = stuck }
      | some (mmio', none) ↦ record { mmio = mmio'; list = list; calls = []; ended = null_reply }
      | some (mmio', some bytes) ↦
          let (list', calls) = reply_to_command list (reply_of (heap budget) bytes) in
          let rest = update_handler budget alloc heap mmio' queue list' in
          record rest { calls = calls ++ rest.calls }
    ]

abbrev pub handler_budget : ℕ
handler_budget = 20

unfoldable pub dmrq_update_handler : (ℕ → Bool) → (ℕ → Mem) → Mxvp → Mxvp × List Call × HandlerEnd
dmrq_update_handler alloc heap s =
    let r = update_handler handler_budget alloc heap s.mmio s.dmrq s.dma_list in
    (record s { mmio = r.mmio; dma_list = r.list }, r.calls, r.ended)

unfoldable pub retq_update_handler : (ℕ → Bool) → (ℕ → Mem) → Mxvp → Mxvp × List Call × HandlerEnd
retq_update_handler alloc heap s =
    let r = update_handler handler_budget alloc heap s.mmio s.retq s.cmd_list in
    (record s { mmio = r.mmio; cmd_list = r.list }, r.calls, r.ended)
