-- ===== src/Vpu/Bspec/Send.antt =====
-- What a send leaves behind: the command in the queue and in the list, joined by its id.
use pcie_host_driver.Prelude.{
  ℕ, ◌+◌, ◌%◌, ◌^◌, ◌≤◌, ◌<◌, ◌≡◌, ◌≢◌, refl, ap, subst, ◌∙◌, ◌⊎◌, inl, inr, some, List, [], ◌∷◌,
  ◌++◌, ◌||◌, arith, length, ◌==◌, if◌then◌else◌, Bool-cases, ==-false,
}
use native.Mathlib.Nat.{mod-eq_of_lt}
use pcie_host_driver.Mmio.{Mem, Bytes, offset, rd_buf, rd32, wr32}
use pcie_host_driver.Mmio.Laws.{rd32-SameOn, rd32-wr32, wr32-SameOn, rd32-offset}
use pcie_host_driver.Vpu.Queue.{Queue, PushStatus, pushed, enospc, queue_push}
use pcie_host_driver.Vpu.Queue.Enqueue.{IsLayout, IsElement}
use pcie_host_driver.Vpu.Queue.Fifo.{Holds, PushOutcome, queue_push-PushOutcome}
use pcie_host_driver.Vpu.Queue.Bounds.{IsElsewhere, Holds-inside, queue_push-IsBounded}
use pcie_host_driver.Vpu.FreeList.{NotIn}
use pcie_host_driver.Vpu.CmdList.{
  CmdList, Reply, Call, cmd_list_add, cmd_list_remove, generate_id, id_to_position, command_id,
  reply_to_command,
}
use pcie_host_driver.Vpu.CmdList.Entries.{
  entry_at, Vacant, id_to_position-generate_id, cmd_list_add-Vacant, cmd_list_remove-Vacant,
  reply_to_command-Vacant,
}
use pcie_host_driver.Vpu.Bspec.{
  cmd_exe_buffer, cmd_fence, is_dma_op, Mxvp, sent, einval, no_space, Submitted, submit, send_cmd,
  send_dma,
}

-- A command that stands at `cmd` in the kernel's memory: its first word is its length.
pub record IsCommand (kmem : Mem) (cmd : ℕ) : Type 0 where
  pub room : 16 ≤ rd32 kmem cmd
  pub whole : rd32 kmem cmd % 4 ≡ 0
  pub small : rd32 kmem cmd + 8 ≤ 2 ^ 32

-- The command is in flight: last in the queue behind `es`, and at position `i`, where its id leads.
pub record InFlight (queue : Queue) (es : List Bytes) (cmd cb arg i : ℕ) (is : List ℕ)
    (r : Submitted) : Type 0 where
  pub queued : Holds r.mmio queue (es ++ rd_buf (offset r.kmem cmd) 0 (rd32 r.kmem cmd) ∷ [])
  pub leads : id_to_position (command_id r.kmem cmd) ≡ i
  pub command : (entry_at r.list i).command ≡ cmd
  pub callback : (entry_at r.list i).callback ≡ cb
  pub arg_kept : (entry_at r.list i).arg ≡ arg
  pub vacant : Vacant r.list is

-- Nothing of the command is left: the queue and the vacant positions are as before.
pub record TakenBack (mmio : Mem) (i : ℕ) (is : List ℕ) (r : Submitted) : Type 0 where
  pub queue_kept : r.mmio ≡ mmio
  pub vacant : Vacant r.list (i ∷ is)

module _ (kmem : Mem) (cmd : ℕ) (id : ℕ) where
  length-id : rd32 (wr32 kmem (cmd + 4) id) cmd ≡ rd32 kmem cmd
  length-id =
      rd32-SameOn kmem (wr32 kmem (cmd + 4) id) cmd
        (wr32-SameOn kmem (cmd + 4) id cmd 4 (inr (omega arith)))

  IsElement-command :
      (q : Queue)
      → IsCommand kmem cmd
      → IsElement q (offset (wr32 kmem (cmd + 4) id) cmd) (rd32 (wr32 kmem (cmd + 4) id) cmd)
  IsElement-command q c = record {
    leads = rd32-offset (wr32 kmem (cmd + 4) id) cmd;
    room = omega (arith, length-id, c.room);
    whole = omega (arith, length-id, c.whole);
    small = omega (arith, length-id, c.small);
  }

module _ (mmio kmem : Mem) (seqno : ℕ) (queue : Queue) (list : CmdList) (cmd cb arg : ℕ)
    (es : List Bytes) (i : ℕ) (is : List ℕ) (lay : IsLayout queue) (held : Holds mmio queue es)
    (c : IsCommand kmem cmd) (v : Vacant list (i ∷ is)) (few : length list.base ≤ 2 ^ 16) where
  abbrev kmem' : Mem
  kmem' = wr32 kmem (cmd + 4) (generate_id seqno i)

  abbrev added : CmdList
  added = (cmd_list_add list cmd cb arg).0

  abbrev push : Mem × PushStatus
  push = queue_push mmio queue (offset kmem' cmd) (rd32 kmem' cmd)

  at_position : (cmd_list_add list cmd cb arg).1 ≡ some i
  at_position = (cmd_list_add-Vacant list cmd cb arg i is v).0

  submit-pushed :
      push.1 ≡ pushed
      → submit mmio kmem seqno queue list cmd cb arg ≡ record {
        mmio = push.0;
        kmem = kmem';
        list = added;
        seqno = (seqno + 1) % 2 ^ 32;
        status = sent;
      }
  unfolding submit
  submit-pushed e = ground (arith, at_position)

  submit-enospc :
      push.1 ≡ enospc
      → submit mmio kmem seqno queue list cmd cb arg ≡ record {
        mmio = push.0;
        kmem = kmem';
        list = (cmd_list_remove added i).0;
        seqno = (seqno + 1) % 2 ^ 32;
        status = no_space;
      }
  unfolding submit
  submit-enospc e = ground (arith, at_position)

  id-leads : id_to_position (command_id kmem' cmd) ≡ i
  unfolding command_id
  id-leads =
      let below : i < 2 ^ 16 = omega (arith, v.below.0) in
      let (back, word) = id_to_position-generate_id seqno i below in
      ap id_to_position (rd32-wr32 kmem (cmd + 4) (generate_id seqno i) ∙ mod-eq_of_lt word) ∙ back

  submit-by :
      (s : PushStatus)
      → push.1 ≡ s
      → PushOutcome mmio queue es (rd_buf (offset kmem' cmd) 0 (rd32 kmem' cmd)) push.0 s
      → let r = submit mmio kmem seqno queue list cmd cb arg in
        ((r.status ≡ sent) × InFlight queue es cmd cb arg i is r)
        ⊎ ((r.status ≡ no_space) × TakenBack mmio i is r)
  submit-by pushed e held' =
      let (pos, command, callback, arg_kept, same, size, v') =
        cmd_list_add-Vacant list cmd cb arg i is v in
      rw (submit-pushed e) (
        inl (
          refl,
          record {
            queued = held';
            leads = id-leads;
            command = command;
            callback = callback;
            arg_kept = arg_kept;
            vacant = v';
          },
        ))
  submit-by enospc e same_mmio =
      let (pos, command, callback, arg_kept, same, size, v') =
        cmd_list_add-Vacant list cmd cb arg i is v in
      let below : i < length added.base = omega (arith, size, v.below.0) in
      rw (submit-enospc e) (
        inr (
          refl,
          record {
            queue_kept = same_mmio;
            vacant = (cmd_list_remove-Vacant added i is below v.distinct.0 v').3;
          },
        ))

  -- A submission either puts the command in flight or takes it back, and then reports -ENOSPC.
  pub submit-InFlight :
      let r = submit mmio kmem seqno queue list cmd cb arg in
      ((r.status ≡ sent) × InFlight queue es cmd cb arg i is r)
      ⊎ ((r.status ≡ no_space) × TakenBack mmio i is r)
  submit-InFlight = submit-by push.1 refl (
      queue_push-PushOutcome mmio queue (offset kmem' cmd) (rd32 kmem' cmd) es lay
        (IsElement-command kmem cmd (generate_id seqno i) queue c) held)

  -- Of the device's memory it writes the queue's ring and its tail register at most.
  pub submit-elsewhere :
      (x : ℕ) → IsElsewhere queue x → (submit mmio kmem seqno queue list cmd cb arg).mmio x ≡ mmio x
  submit-elsewhere x away =
      let (top, inside, whole) = Holds-inside mmio queue es held in
      let kept =
        (queue_push-IsBounded mmio queue (offset kmem' cmd) (rd32 kmem' cmd) lay
            (IsElement-command kmem cmd (generate_id seqno i) queue c) top inside whole).1
          x away in
      pushes push.1 refl ∙ kept
    where
      pushes :
          (s : PushStatus)
          → push.1 ≡ s
          → (submit mmio kmem seqno queue list cmd cb arg).mmio x ≡ push.0 x
      pushes pushed e = ap (λ r. r.mmio x) (submit-pushed e)
      pushes enospc e = ap (λ r. r.mmio x) (submit-enospc e)

-- the call that a reply to position `j` leads to
abbrev call_of : CmdList → Reply → ℕ → Call
call_of list reply j = record {
  callback = (entry_at list j).callback;
  command = (entry_at list j).command;
  reply = reply;
  arg = (entry_at list j).arg;
}

-- A reply with the id of a command in flight calls that command's callback, once, with the command,
-- the reply and the argument, and makes its position vacant again.
pub reply-InFlight :
    (queue : Queue) (es : List Bytes) (cmd cb arg i : ℕ) (is : List ℕ) (r : Submitted)
    (reply : Reply)
    → InFlight queue es cmd cb arg i is r
    → i < length r.list.base
    → NotIn i is
    → cb ≢ 0
    → reply.id ≡ command_id r.kmem cmd
    → let (list', calls) = reply_to_command r.list reply in
      (calls ≡ record { callback = cb; command = cmd; reply = reply; arg = arg } ∷ [])
      × Vacant list' (i ∷ is)
reply-InFlight queue es cmd cb arg i is r reply f inside out set_back id =
    let at : id_to_position reply.id ≡ i = ap id_to_position id ∙ f.leads in
    let (calls, v) =
      subst
        (λ j.
          j < length r.list.base
          → NotIn j is
          → (entry_at r.list j).callback ≢ 0
          → ((reply_to_command r.list reply).1 ≡ call_of r.list reply j ∷ [])
            × Vacant (reply_to_command r.list reply).0 (j ∷ is))
        at (λ p q e. reply_to_command-Vacant r.list reply is p q e f.vacant) inside out
        (rw f.callback set_back) in
    (calls ∙ cc, v)

module _ (s : Mxvp) (cmd cb arg : ℕ) (es : List Bytes) (i : ℕ) (is : List ℕ) (present : cmd ≢ 0)
    (c : IsCommand s.kmem cmd) where
  -- With a vacant position in the command list and a queue that holds a sequence of elements,
  -- `mxvp_send_cmd` of a command that it knows puts it in flight on the command queue, or reports
  -- -ENOSPC and takes it back; either way the DMA list is as before, and so is the device's memory but
  -- for the command queue's ring and tail register; of any other it reports -EINVAL and
  -- changes nothing.
  pub send_cmd-InFlight :
      IsLayout s.cmdq
      → Holds s.mmio s.cmdq es
      → Vacant s.cmd_list (i ∷ is)
      → length s.cmd_list.base ≤ 2 ^ 16
      → let (s', status) = send_cmd s cmd cb arg in
        let r = submit s.mmio s.kmem s.seqno s.cmdq s.cmd_list cmd cb arg in
        let op = rd32 s.kmem (cmd + 12) in
        if (op == cmd_exe_buffer) || (op == cmd_fence)
        then ((status ≡ sent) × InFlight s.cmdq es cmd cb arg i is r
            ⊎ (status ≡ no_space) × TakenBack s.mmio i is r)
          × (s'.mmio ≡ r.mmio)
          × (s'.cmd_list ≡ r.list)
          × (s'.dma_list ≡ s.dma_list)
          × ((x : ℕ) → IsElsewhere s.cmdq x → s'.mmio x ≡ s.mmio x)
        else (status ≡ einval) × (s' ≡ s)
  unfolding send_cmd
  send_cmd-InFlight lay held v few =
      rw (==-false cmd 0 present)
        (elim (Bool-cases
          ((rd32 s.kmem (cmd + 12) == cmd_exe_buffer) || (rd32 s.kmem (cmd + 12) == cmd_fence))) [
            | inl known ↦ rw known (
              submit-InFlight s.mmio s.kmem s.seqno s.cmdq s.cmd_list cmd cb arg es i is lay held c
                  v few,
              refl,
              refl,
              refl,
              submit-elsewhere s.mmio s.kmem s.seqno s.cmdq s.cmd_list cmd cb arg es i is lay held c
                  v few,
            )
            | inr unknown ↦ rw unknown (refl, refl)
          ])

  -- With a vacant position in the DMA list and a queue that holds a sequence of elements,
  -- `mxvp_send_dma` of an operation that it knows puts it in flight on the DMA queue, or reports
  -- -ENOSPC and takes it back; either way the command list is as before, and so is the device's memory
  -- but for the DMA queue's ring and tail register; of any other it reports -EINVAL and
  -- changes nothing.
  pub send_dma-InFlight :
      IsLayout s.dmaq
      → Holds s.mmio s.dmaq es
      → Vacant s.dma_list (i ∷ is)
      → length s.dma_list.base ≤ 2 ^ 16
      → let (s', status) = send_dma s cmd cb arg in
        let r = submit s.mmio s.kmem s.seqno s.dmaq s.dma_list cmd cb arg in
        let op = rd32 s.kmem (cmd + 12) in
        if is_dma_op op
        then ((status ≡ sent) × InFlight s.dmaq es cmd cb arg i is r
            ⊎ (status ≡ no_space) × TakenBack s.mmio i is r)
          × (s'.mmio ≡ r.mmio)
          × (s'.dma_list ≡ r.list)
          × (s'.cmd_list ≡ s.cmd_list)
          × ((x : ℕ) → IsElsewhere s.dmaq x → s'.mmio x ≡ s.mmio x)
        else (status ≡ einval) × (s' ≡ s)
  unfolding send_dma
  send_dma-InFlight lay held v few =
      rw (==-false cmd 0 present) (elim (Bool-cases (is_dma_op (rd32 s.kmem (cmd + 12)))) [
        | inl known ↦ rw known (
          submit-InFlight s.mmio s.kmem s.seqno s.dmaq s.dma_list cmd cb arg es i is lay held c v
              few,
          refl,
          refl,
          refl,
          submit-elsewhere s.mmio s.kmem s.seqno s.dmaq s.dma_list cmd cb arg es i is lay held c v
              few,
        )
        | inr unknown ↦ rw unknown (refl, refl)
      ])
