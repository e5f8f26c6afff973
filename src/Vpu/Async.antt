-- ===== src/Vpu/Async.antt =====
-- vpu/mxvp/mxvp_bspec.c: `mxvp_send_async`, a request to the device that the driver waits for. What
-- the device answers to the driver's reads of a register comes as a sequence of values.
pub mod Wait
use pcie_host_driver.Prelude.{
  ℕ, zero, suc, ◌+◌, ◌*◌, ◌/◌, ◌%◌, ◌^◌, Bool, true, false, Option, none, some, List, [], ◌∷◌, ◌++◌,
  leb, ◌==◌, if◌then◌else◌,
}
use pcie_host_driver.Mmio.{Mem, wr8, wr32}
use pcie_host_driver.Vpu.CmdList.{CmdList, Call, cmd_list_flush, status_discarded}

-- `enum mxvp_async_cmd` by its values: the two preemptions, the two resets of queues, the reset of
-- the device, and the power state.
abbrev pub async_cmdq_preempt : ℕ
async_cmdq_preempt = 0

abbrev pub async_dmaq_preempt : ℕ
async_dmaq_preempt = 1

abbrev pub async_cmdq_reset : ℕ
async_cmdq_reset = 2

abbrev pub async_dmaq_reset : ℕ
async_dmaq_reset = 3

abbrev pub async_dev_reset : ℕ
async_dev_reset = 4

abbrev pub async_set_power : ℕ
async_set_power = 5

abbrev pub async_max : ℕ
async_max = 6

abbrev pub reg_async_request : ℕ
reg_async_request = 0x1060

abbrev pub reg_async_args : ℕ
reg_async_args = 0x106C

-- The part of `struct mxvp` that async commands go through. `pending` has the bits of
-- `async_pending`; `doorbells` counts the writes of `mxvp_ring_doorbell`.
pub record AsyncState : Type 0 where
  pub mmio : Mem
  pub kmem : Mem
  pub cmd_list : CmdList
  pub dma_list : CmdList
  pub pending : ℕ → Bool
  pub doorbells : ℕ

pub data AsyncStatus : Type 0 where
  async_ok async_einval async_ebusy : AsyncStatus

-- value & BIT(cmd), as a truth value
abbrev pub has_bit : ℕ → ℕ → Bool
has_bit value cmd = (value / 2 ^ cmd) % 2 == 1

abbrev pub set_pending : (ℕ → Bool) → ℕ → Bool → ℕ → Bool
set_pending pending cmd b c = if c == cmd then b else pending c

-- The reads of REQUEST until its bit is clear, and of DONE until its bit is set, from the `i`-th
-- read. `false` means that the fuel ran out.
unfoldable pub wait_clear : ℕ → (ℕ → ℕ) → ℕ → ℕ → Bool
wait_clear zero reads cmd i = false
wait_clear (suc fuel) reads cmd i =
    let again = wait_clear fuel reads cmd (i + 1) in if has_bit (reads i) cmd then again else true

unfoldable pub wait_done : ℕ → (ℕ → ℕ) → ℕ → ℕ → Bool
wait_done zero reads cmd i = false
wait_done (suc fuel) reads cmd i =
    let again = wait_done fuel reads cmd (i + 1) in if has_bit (reads i) cmd then true else again

-- The flushes after the device is done.
unfoldable pub post_async : ℕ → AsyncState → AsyncState × List Call
post_async cmd s =
    let (cmds, cmd_calls) = cmd_list_flush s.kmem status_discarded s.cmd_list in
    let (dmas, dma_calls) = cmd_list_flush s.kmem status_discarded s.dma_list in
    if (cmd == async_cmdq_preempt)
    then (record s { cmd_list = cmds }, cmd_calls)
    else if (cmd == async_cmdq_reset)
    then (record s { cmd_list = cmds }, cmd_calls)
    else if (cmd == async_dmaq_preempt)
    then (record s { dma_list = dmas }, dma_calls)
    else if (cmd == async_dmaq_reset)
    then (record s { dma_list = dmas }, dma_calls)
    else if (cmd == async_dev_reset)
    then (record s { cmd_list = cmds; dma_list = dmas }, cmd_calls ++ dma_calls)
    else (s, [])

-- The request: the pending bit, the argument of a power request, the register and the doorbell.
unfoldable pub request_async : ℕ → ℕ → AsyncState → AsyncState
request_async cmd arg s =
    let mmio' = if cmd == async_set_power then wr8 s.mmio reg_async_args arg else s.mmio in
    record s {
      mmio = wr32 mmio' reg_async_request (2 ^ cmd);
      pending = set_pending s.pending cmd true;
      doorbells = s.doorbells + 1;
    }

-- `none` means that the device did not answer within the fuel.
unfoldable pub send_async :
    ℕ → (ℕ → ℕ) → (ℕ → ℕ) → AsyncState → ℕ → ℕ → Option (AsyncState × AsyncStatus × List Call)
send_async fuel requests dones s cmd arg =
    let (s', calls) = post_async cmd (request_async cmd arg s) in
    let answered = if wait_clear fuel requests cmd 0 then wait_done fuel dones cmd 0 else false in
    if leb async_max cmd
    then some (s, async_einval, [])
    else if s.pending cmd
    then some (s, async_ebusy, [])
    else if answered
    then some (record s' { pending = set_pending s'.pending cmd false }, async_ok, calls)
    else none
