-- ===== src/Vpu/Async/Wait.antt =====
-- When `mxvp_send_async` returns, and what it has done then.
use pcie_host_driver.Prelude.{
  ℕ, zero, suc, ◌+◌, ◌≤◌, ◌<◌, ◌^◌, ◌≡◌, length, refl, sym, ap, ◌∙◌, inl, inr, Bool, true, false,
  some, List, [], ◌++◌, arith, ◌==◌, Bool-cases, lt→leb-false, le→leb, ◌||◌, ==_iff, append-nil,
  subst,
}
use pcie_host_driver.Mmio.{Mem, rd32, wr8}
use pcie_host_driver.Mmio.Laws.{rd32-wr32}
use pcie_host_driver.Vpu.CmdList.{CmdList, Call, cmd_list_flush, status_discarded}
use pcie_host_driver.Vpu.CmdList.Flush.{
  Emptied, discards_from, cmd_list_flush-links, cmd_list_flush-calls,
}
use pcie_host_driver.Vpu.Async.{
  AsyncState, async_ok, async_einval, async_ebusy, async_max, has_bit, set_pending, wait_clear,
  wait_done, post_async, request_async, send_async, reg_async_request, reg_async_args,
}

at_next : (f : ℕ → Bool) (i n : ℕ) (b : Bool) → f (i + suc n) ≡ b → f (i + 1 + n) ≡ b
at_next f i n b e = subst (λ k. f k ≡ b) (omega arith) e

at_first : (f : ℕ → Bool) (i : ℕ) (b : Bool) → f (i + 0) ≡ b → f i ≡ b
at_first f i b e = subst (λ k. f k ≡ b) (omega arith) e

-- A wait for a clear bit ends, if the bit is clear at some read within the fuel.
wait_clear-ends :
    (fuel n i cmd : ℕ) (reads : ℕ → ℕ)
    → n < fuel
    → has_bit (reads (i + n)) cmd ≡ false
    → wait_clear fuel reads cmd i ≡ true
unfolding wait_clear
wait_clear-ends zero n i cmd reads lt e = absurd (omega arith)
wait_clear-ends (suc fuel) zero i cmd reads lt e =
    rw (at_first (λ k. has_bit (reads k) cmd) i false e)
wait_clear-ends (suc fuel) (suc n) i cmd reads lt e = elim (Bool-cases (has_bit (reads i) cmd)) [
  | inr clear ↦ rw clear
  | inl busy ↦ rw busy (
      wait_clear-ends fuel n (i + 1) cmd reads (omega arith)
        (at_next (λ k. has_bit (reads k) cmd) i n false e))
]

-- Likewise a wait for a set bit.
wait_done-ends :
    (fuel n i cmd : ℕ) (reads : ℕ → ℕ)
    → n < fuel
    → has_bit (reads (i + n)) cmd ≡ true
    → wait_done fuel reads cmd i ≡ true
unfolding wait_done
wait_done-ends zero n i cmd reads lt e = absurd (omega arith)
wait_done-ends (suc fuel) zero i cmd reads lt e =
    rw (at_first (λ k. has_bit (reads k) cmd) i true e)
wait_done-ends (suc fuel) (suc n) i cmd reads lt e = elim (Bool-cases (has_bit (reads i) cmd)) [
  | inl done ↦ rw done
  | inr waiting ↦ rw waiting (
      wait_done-ends fuel n (i + 1) cmd reads (omega arith)
        (at_next (λ k. has_bit (reads k) cmd) i n true e))
]

-- The commands that discard what is in flight on the command queue, and on the DMA queue.
abbrev pub discards_cmds : ℕ → Bool
discards_cmds cmd = (cmd == 0) || ((cmd == 2) || (cmd == 4))

abbrev pub discards_dmas : ℕ → Bool
discards_dmas cmd = (cmd == 1) || ((cmd == 3) || (cmd == 4))

-- A list whose commands are discarded, or that is left as it was.
abbrev pub Discards : Bool → CmdList → CmdList → Type 0
Discards true list list' = Emptied list list'
Discards false list list' = list' ≡ list

abbrev pub calls_if : Bool → Mem → CmdList → List Call
calls_if true kmem list = discards_from kmem status_discarded list.base 0 (length list.base)
calls_if false kmem list = []

-- What an async command that the device has answered has done.
pub record Answered (cmd : ℕ) (s s' : AsyncState) (calls : List Call) : Type 0 where
  pub cmds : Discards (discards_cmds cmd) s.cmd_list s'.cmd_list
  pub dmas : Discards (discards_dmas cmd) s.dma_list s'.dma_list
  pub called :
      calls
      ≡ calls_if (discards_cmds cmd) s.kmem s.cmd_list
        ++ calls_if (discards_dmas cmd) s.kmem s.dma_list
  pub request : rd32 s'.mmio reg_async_request ≡ 2 ^ cmd
  pub bits : (c : ℕ) → s'.pending c ≡ s.pending c
  pub rung : s'.doorbells ≡ s.doorbells + 1

Emptied-flush :
    (kmem : Mem) (list : CmdList) → Emptied list (cmd_list_flush kmem status_discarded list).0
Emptied-flush kmem list =
    let (size, top, entries) = cmd_list_flush-links kmem status_discarded list in
    record { size = size; top = top; entries = entries }

calls-flush :
    (kmem : Mem) (list : CmdList)
    → (cmd_list_flush kmem status_discarded list).1 ≡ calls_if true kmem list
calls-flush kmem list = cmd_list_flush-calls kmem status_discarded list

bits-restored :
    (pending : ℕ → Bool) (cmd : ℕ)
    → pending cmd ≡ false
    → (c : ℕ) → set_pending (set_pending pending cmd true) cmd false c ≡ pending c
bits-restored pending cmd free c = elim (Bool-cases (c == cmd)) [
  | inl same ↦ rw same (sym (ap pending ((==_iff c cmd).0 same) ∙ free))
  | inr other ↦ rw other
]

post_async-Answered :
    (cmd arg : ℕ) (s : AsyncState)
    → cmd < async_max
    → s.pending cmd ≡ false
    → let (s', calls) = post_async cmd (request_async cmd arg s) in
      Answered cmd s (record s' { pending = set_pending s'.pending cmd false }) calls
unfolding post_async request_async
post_async-Answered zero arg s lt free = record {
  cmds = Emptied-flush s.kmem s.cmd_list;
  dmas = refl;
  called =
      sym (append-nil (cmd_list_flush s.kmem status_discarded s.cmd_list).1)
      ∙ ap (λ l. l ++ []) (calls-flush s.kmem s.cmd_list);
  request = rd32-wr32 s.mmio reg_async_request (2 ^ 0);
  bits = bits-restored s.pending 0 free;
  rung = refl;
}
post_async-Answered (suc zero) arg s lt free = record {
  cmds = refl;
  dmas = Emptied-flush s.kmem s.dma_list;
  called = calls-flush s.kmem s.dma_list;
  request = rd32-wr32 s.mmio reg_async_request (2 ^ 1);
  bits = bits-restored s.pending 1 free;
  rung = refl;
}
post_async-Answered (suc (suc zero)) arg s lt free = record {
  cmds = Emptied-flush s.kmem s.cmd_list;
  dmas = refl;
  called =
      sym (append-nil (cmd_list_flush s.kmem status_discarded s.cmd_list).1)
      ∙ ap (λ l. l ++ []) (calls-flush s.kmem s.cmd_list);
  request = rd32-wr32 s.mmio reg_async_request (2 ^ 2);
  bits = bits-restored s.pending 2 free;
  rung = refl;
}
post_async-Answered (suc (suc (suc zero))) arg s lt free = record {
  cmds = refl;
  dmas = Emptied-flush s.kmem s.dma_list;
  called = calls-flush s.kmem s.dma_list;
  request = rd32-wr32 s.mmio reg_async_request (2 ^ 3);
  bits = bits-restored s.pending 3 free;
  rung = refl;
}
post_async-Answered (suc (suc (suc (suc zero)))) arg s lt free = record {
  cmds = Emptied-flush s.kmem s.cmd_list;
  dmas = Emptied-flush s.kmem s.dma_list;
  called =
      ap (λ l. l ++ (cmd_list_flush s.kmem status_discarded s.dma_list).1)
        (calls-flush s.kmem s.cmd_list)
      ∙ ap (λ l. calls_if true s.kmem s.cmd_list ++ l) (calls-flush s.kmem s.dma_list);
  request = rd32-wr32 s.mmio reg_async_request (2 ^ 4);
  bits = bits-restored s.pending 4 free;
  rung = refl;
}
post_async-Answered (suc (suc (suc (suc (suc zero))))) arg s lt free = record {
  cmds = refl;
  dmas = refl;
  called = refl;
  request = rd32-wr32 (wr8 s.mmio reg_async_args arg) reg_async_request (2 ^ 5);
  bits = bits-restored s.pending 5 free;
  rung = refl;
}
post_async-Answered (suc (suc (suc (suc (suc (suc k)))))) arg s lt free = absurd (omega arith)

-- An async command of a known kind that is not pending returns 0 once the device has cleared its
-- request bit and set its done bit; it has then written the command's bit to the request register,
-- rung the doorbell once, and emptied the list of each queue that it stops and no other, with one call
-- for each command in them that has a callback, in the order of the positions, whose reply has the
-- command's id and the status for a discarded command. All pending bits are as before.
pub send_async-Answered :
    (fuel n m cmd arg : ℕ) (requests dones : ℕ → ℕ) (s : AsyncState)
    → cmd < async_max
    → s.pending cmd ≡ false
    → n < fuel
    → has_bit (requests n) cmd ≡ false
    → m < fuel
    → has_bit (dones m) cmd ≡ true
    → (s' : AsyncState) × (calls : List Call) × (send_async fuel requests dones s cmd arg
        ≡ some (s', async_ok, calls))
      × Answered cmd s s' calls
unfolding send_async
send_async-Answered fuel n m cmd arg requests dones s lt free n_lt clear m_lt done =
    let (s', calls) = post_async cmd (request_async cmd arg s) in
    let clear' : has_bit (requests (0 + n)) cmd ≡ false =
      subst (λ k. has_bit (requests k) cmd ≡ false) (omega arith) clear in
    let done' : has_bit (dones (0 + m)) cmd ≡ true =
      subst (λ k. has_bit (dones k) cmd ≡ true) (omega arith) done in
    (
      record s' { pending = set_pending s'.pending cmd false },
      calls,
      rw (
        lt→leb-false async_max cmd lt,
        free,
        wait_clear-ends fuel n 0 cmd requests n_lt clear',
        wait_done-ends fuel m 0 cmd dones m_lt done',
      ),
      post_async-Answered cmd arg s lt free,
    )

-- An unknown command, and one of a kind that is pending already, are refused with nothing changed.
pub send_async-refused :
    (fuel cmd arg : ℕ) (requests dones : ℕ → ℕ) (s : AsyncState)
    → ((async_max ≤ cmd) → send_async fuel requests dones s cmd arg ≡ some (s, async_einval, []))
      × (cmd < async_max
          → s.pending cmd ≡ true
          → send_async fuel requests dones s cmd arg ≡ some (s, async_ebusy, []))
unfolding send_async
send_async-refused fuel cmd arg requests dones s =
    (λ h. rw (le→leb async_max cmd h), λ h p. rw (lt→leb-false async_max cmd h, p))
