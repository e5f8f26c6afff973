-- ===== src/Vpu/Events/Isr.antt =====
-- Each interrupt source leads to its work item, and the device is told of what was seen.
use pcie_host_driver.Prelude.{
  ℕ, ◌+◌, ◌%◌, ◌^◌, ◌≡◌, refl, ap, ◌∙◌, inr, Bool, true, false, List, [], ◌∷◌, ◌++◌, arith,
  if◌then◌else◌,
}
use pcie_host_driver.Mmio.{Mem, rd32, wr32}
use pcie_host_driver.Mmio.Laws.{rd32-wr32, rd32-wr32_ne}
use pcie_host_driver.Vpu.Events.{
  Work, dmrq_update, retq_update, dmaq_preempt, cmdq_preempt, status_update, bit_at, work_if,
  event_isr, reg_intr_pending, reg_intr_status, reg_intr_ack,
}

abbrev same_work : Work → Work → Bool
same_work dmrq_update dmrq_update = true
same_work retq_update retq_update = true
same_work dmaq_preempt dmaq_preempt = true
same_work cmdq_preempt cmdq_preempt = true
same_work status_update status_update = true
same_work _ _ = false

-- how often a work item is queued
abbrev pub times : Work → List Work → ℕ
times w [] = 0
times w (x ∷ xs) = (if same_work w x then 1 else 0) + times w xs

-- the bit of the pending register that stands for a work item
abbrev pub shift_of : Work → ℕ
shift_of dmrq_update = 4
shift_of retq_update = 3
shift_of dmaq_preempt = 2
shift_of cmdq_preempt = 1
shift_of status_update = 0

abbrev choose : Work → (b4 b3 b2 b1 b0 : Bool) → Bool
choose dmrq_update b4 b3 b2 b1 b0 = b4
choose retq_update b4 b3 b2 b1 b0 = b3
choose dmaq_preempt b4 b3 b2 b1 b0 = b2
choose cmdq_preempt b4 b3 b2 b1 b0 = b1
choose status_update b4 b3 b2 b1 b0 = b0

times-work_if :
    (w : Work) (b4 b3 b2 b1 b0 : Bool)
    → times w (
        work_if b4 dmrq_update
        ++ (work_if b3 retq_update
            ++ (work_if b2 dmaq_preempt ++ (work_if b1 cmdq_preempt ++ work_if b0 status_update))))
      ≡ (if choose w b4 b3 b2 b1 b0 then 1 else 0)
times-work_if dmrq_update b4 b3 b2 b1 b0 = ground arith
times-work_if retq_update b4 b3 b2 b1 b0 = ground arith
times-work_if dmaq_preempt b4 b3 b2 b1 b0 = ground arith
times-work_if cmdq_preempt b4 b3 b2 b1 b0 = ground arith
times-work_if status_update b4 b3 b2 b1 b0 = ground arith

choose-bit_at :
    (w : Work) (p : ℕ)
    → choose w (bit_at 4 p) (bit_at 3 p) (bit_at 2 p) (bit_at 1 p) (bit_at 0 p)
      ≡ bit_at (shift_of w) p
choose-bit_at dmrq_update p = refl
choose-bit_at retq_update p = refl
choose-bit_at dmaq_preempt p = refl
choose-bit_at cmdq_preempt p = refl
choose-bit_at status_update p = refl

-- The handler queues each work item once if its bit is pending, and else not at all; and it reports
-- the pending bits to the device as handled.
pub event_isr-dispatch :
    (mmio : Mem) (w : Work)
    → let pending = rd32 mmio reg_intr_pending in
      let (mmio', works) = event_isr mmio in
      (times w works ≡ (if bit_at (shift_of w) pending then 1 else 0))
      × (rd32 mmio' reg_intr_status ≡ pending % 2 ^ 32)
      × (rd32 mmio' reg_intr_ack ≡ 0)
unfolding event_isr
event_isr-dispatch mmio w =
    let pending = rd32 mmio reg_intr_pending in
    (
      times-work_if w (bit_at 4 pending) (bit_at 3 pending) (bit_at 2 pending) (bit_at 1 pending)
            (bit_at 0 pending)
          ∙ ap (λ b. if b then 1 else 0) (choose-bit_at w pending),
      rd32-wr32_ne (wr32 mmio reg_intr_status pending) reg_intr_ack 0 reg_intr_status
            (inr (omega arith))
          ∙ rd32-wr32 mmio reg_intr_status pending,
      rd32-wr32 (wr32 mmio reg_intr_status pending) reg_intr_ack 0,
    )
