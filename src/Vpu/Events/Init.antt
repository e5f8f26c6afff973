-- ===== src/Vpu/Events/Init.antt =====
-- What the set-up leaves when it succeeds, and when it does.
use pcie_host_driver.Prelude.{
  ℕ, zero, suc, ◌+◌, ◌*◌, ◌/◌, ◌%◌, ◌^◌, ◌≤◌, ◌≡◌, refl, subst, ◌∙◌, inl, inr, Bool, true, false,
  none, some, arith, Bool-cases,
}
use Prim.Native.Nat.{bit_or}
use pcie_host_driver.Mmio.{Mem, rd16, rd32, rd64, wr16}
use pcie_host_driver.Vpu.Queue.{queue_init}
use pcie_host_driver.Vpu.FreeList.{range_from}
use pcie_host_driver.Vpu.Blocks.{memory_block_size, link_up, mem_init}
use pcie_host_driver.Vpu.Blocks.Pool.{IsPool, mem_init-IsPool}
use pcie_host_driver.Vpu.CmdList.Entries.{Vacant, cmd_list_init-Vacant}
use pcie_host_driver.Vpu.Events.{
  magic_found, startup_check, Platform, failed, ready, startup_failed, Ready, set_up, bspec_init,
  enable_events, reg_ddr_size, page_size, reg_reply_order, reg_cmdq_start, reg_retq_start,
  reg_dmaq_start, reg_dmrq_start, reg_ddr_phy_address,
}

-- One good read among those from `i` is enough.
magic_found-true :
    (retries n i : ℕ) (good : ℕ → Bool)
    → n ≤ retries
    → good (i + n) ≡ true
    → magic_found retries good i ≡ true
unfolding magic_found
magic_found-true zero zero i good le e = subst (λ k. good k ≡ true) (omega arith) e
magic_found-true zero (suc n) i good le e = absurd (omega arith)
magic_found-true (suc retries) zero i good le e =
    let e' : good i ≡ true = subst (λ k. good k ≡ true) (omega arith) e in rw e'
magic_found-true (suc retries) (suc n) i good le e = elim (Bool-cases (good i)) [
  | inl found ↦ rw found
  | inr miss ↦ rw miss (
      magic_found-true retries n (i + 1) good (omega arith)
        (subst (λ k. good k ≡ true) (omega arith) e))
]

-- With no good read the loop gives up.
magic_found-false :
    (retries i : ℕ) (good : ℕ → Bool)
    → ((n : ℕ) → n ≤ retries → good (i + n) ≡ false)
    → magic_found retries good i ≡ false
unfolding magic_found
magic_found-false zero i good bad = subst (λ k. good k ≡ false) (omega arith) (bad 0 (omega arith))
magic_found-false (suc retries) i good bad =
    let e : good i ≡ false = subst (λ k. good k ≡ false) (omega arith) (bad 0 (omega arith)) in
    rw e (
      magic_found-false retries (i + 1) good
        (λ n le. subst (λ k. good k ≡ false) (omega arith) (bad (suc n) (omega arith))))

-- The start-up check reads the main magic up to eleven times: it passes if one of those reads is
-- good, and reports -EIO if none is.
pub startup_check-magic :
    (good : ℕ → Bool) (mmio : Mem)
    → ((n : ℕ) → n ≤ 10 → good n ≡ true → (m : Mem) × (startup_check good mmio ≡ some m))
      × (((n : ℕ) → n ≤ 10 → good n ≡ false) → startup_check good mmio ≡ none)
unfolding startup_check
startup_check-magic good mmio = (
  λ n le e. (
    wr16 mmio reg_reply_order (bit_or (rd16 mmio reg_reply_order) 3),
    rw (magic_found-true 10 n 0 good le (subst (λ k. good k ≡ true) (omega arith) e)),
  ),
  λ bad.
      rw (
        magic_found-false 10 0 good (λ n le. subst (λ k. good k ≡ false) (omega arith) (bad n le))),
)

-- What a driver that is ready offers: all blocks of the DDR free, and all 200 and 300 positions.
pub record IsReady (blocks : ℕ) (r : Ready) : Type 0 where
  pub pool : IsPool r.pool (link_up 0 blocks) (range_from 0 (suc blocks))
  pub cmds : Vacant r.cmd_list (range_from 0 200)
  pub dmas : Vacant r.dma_list (range_from 0 300)

-- With the allocations granted and a DDR of `k + 1` blocks, the last part of the set-up succeeds.
pub set_up-IsReady :
    (p : Platform) (mmio : Mem) (k : ℕ)
    → p.blocks_ok ≡ true
    → p.cmd_list_ok ≡ true
    → p.dma_list_ok ≡ true
    → (rd32 mmio reg_ddr_size * page_size) % 2 ^ 32 / memory_block_size ≡ suc k
    → (r : Ready) × (set_up p mmio ≡ ready r) × IsReady k r
unfolding set_up
set_up-IsReady p mmio k b c d size =
    let ddr_phys = rd64 mmio reg_ddr_phy_address in
    let ddr_size = (rd32 mmio reg_ddr_size * page_size) % 2 ^ 32 in
    let (s, pool) = mem_init-IsPool p.ddr_virt ddr_phys ddr_size k size in
    let (cmds, cmds_made, cmds_length, cmds_vacant) = cmd_list_init-Vacant 199 in
    let (dmas, dmas_made, dmas_length, dmas_vacant) = cmd_list_init-Vacant 299 in
    (
      record {
        mmio = mmio;
        cmdq = queue_init mmio 0 reg_cmdq_start;
        retq = queue_init mmio 0 reg_retq_start;
        dmaq = queue_init mmio 0 reg_dmaq_start;
        dmrq = queue_init mmio 0 reg_dmrq_start;
        ddr_phys = ddr_phys;
        ddr_size = ddr_size;
        pool = (mem_init true p.ddr_virt ddr_phys ddr_size).0;
        cmd_list = cmds;
        dma_list = dmas;
      },
      rw (b, c, d) (rw (s, set_up) (rw (cmds_made, set_up) (rw (dmas_made, set_up)))),
      record { pool = pool; cmds = cmds_vacant; dmas = dmas_vacant },
    )

-- the device's memory when the start-up check has passed
abbrev pub started : Mem → Mem
started mmio =
    let m = enable_events mmio in wr16 m reg_reply_order (bit_or (rd16 m reg_reply_order) 3)

-- With each step before the start-up check granted, the set-up goes on from the check's outcome.
bspec_init-startup_check :
    (p : Platform) (mmio : Mem)
    → p.has_wq ≡ true
    → p.has_pci ≡ true
    → p.pci_ok ≡ true
    → p.vectors_ok ≡ true
    → p.irq_ok ≡ true
    → bspec_init p mmio ≡ elim (startup_check p.good_magic (enable_events mmio)) [
      | none ↦ failed startup_failed
      | some mmio' ↦ set_up p mmio'
    ]
unfolding bspec_init
bspec_init-startup_check p mmio wq pci up vectors irq = rw (wq, pci, up, vectors, irq) refl

-- The driver comes up when each step is granted, one of the first eleven reads of the main magic is
-- good, and the DDR has `k + 1` blocks: then all its blocks and all positions are free.
pub bspec_init-IsReady :
    (p : Platform) (mmio : Mem) (k n : ℕ)
    → p.has_wq ≡ true
    → p.has_pci ≡ true
    → p.pci_ok ≡ true
    → p.vectors_ok ≡ true
    → p.irq_ok ≡ true
    → n ≤ 10
    → p.good_magic n ≡ true
    → p.blocks_ok ≡ true
    → p.cmd_list_ok ≡ true
    → p.dma_list_ok ≡ true
    → (rd32 (started mmio) reg_ddr_size * page_size) % 2 ^ 32 / memory_block_size ≡ suc k
    → (r : Ready) × (bspec_init p mmio ≡ ready r) × IsReady k r
unfolding startup_check
bspec_init-IsReady p mmio k n wq pci up vectors irq le good b c d size =
    let checked = bspec_init-startup_check p mmio wq pci up vectors irq in
    let (r, eq, is) = set_up-IsReady p (started mmio) k b c d size in
    (
      r,
      checked
          ∙ rw
              (
                magic_found-true 10 n 0 p.good_magic le
                    (subst (λ k. p.good_magic k ≡ true) (omega arith) good),
                startup_check,
              )
              eq,
      is,
    )

-- When none of the first eleven reads of the main magic is good, the set-up stops at the start-up
-- check.
pub bspec_init-startup_failed :
    (p : Platform) (mmio : Mem)
    → p.has_wq ≡ true
    → p.has_pci ≡ true
    → p.pci_ok ≡ true
    → p.vectors_ok ≡ true
    → p.irq_ok ≡ true
    → ((n : ℕ) → n ≤ 10 → p.good_magic n ≡ false)
    → bspec_init p mmio ≡ failed startup_failed
unfolding startup_check
bspec_init-startup_failed p mmio wq pci up vectors irq bad =
    bspec_init-startup_check p mmio wq pci up vectors irq
    ∙ rw (
      magic_found-false 10 0 p.good_magic
          (λ n le. subst (λ k. p.good_magic k ≡ false) (omega arith) (bad n le)),
      startup_check,
    )
