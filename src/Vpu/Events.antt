-- ===== src/Vpu/Events.antt =====
-- vpu/mxvp/mxvp_bspec.c: the interrupt handler and the set-up of the driver.
pub mod Isr
pub mod Init
use Prim.Native.Nat.{bit_or}
use pcie_host_driver.Prelude.{
  ℕ, zero, suc, ◌+◌, ◌*◌, ◌/◌, ◌%◌, ◌^◌, Bool, true, false, Option, none, some, List, [], ◌∷◌, ◌++◌,
  ◌==◌, if◌then◌else◌,
}
use pcie_host_driver.Mmio.{Mem, rd16, rd32, rd64, wr16, wr32}
use pcie_host_driver.Vpu.Queue.{Queue, queue_init}
use pcie_host_driver.Vpu.Blocks.{MemPool, InitStatus, init_ok, enomem, overrun, mem_init}
use pcie_host_driver.Vpu.CmdList.{CmdList, cmd_list_init}

abbrev pub reg_reply_order : ℕ
reg_reply_order = 0x0010

abbrev pub reg_ddr_size : ℕ
reg_ddr_size = 0x0014

abbrev pub reg_ddr_phy_address : ℕ
reg_ddr_phy_address = 0x0018

abbrev pub reg_cmdq_start : ℕ
reg_cmdq_start = 0x1020

abbrev pub reg_retq_start : ℕ
reg_retq_start = 0x1030

abbrev pub reg_dmaq_start : ℕ
reg_dmaq_start = 0x1040

abbrev pub reg_dmrq_start : ℕ
reg_dmrq_start = 0x1050

abbrev pub reg_intr_enable : ℕ
reg_intr_enable = 0x1074

abbrev pub reg_intr_pending : ℕ
reg_intr_pending = 0x1078

abbrev pub reg_intr_status : ℕ
reg_intr_status = 0x1080

abbrev pub reg_intr_ack : ℕ
reg_intr_ack = 0x1084

-- the work items of `struct mxvp`
pub data Work : Type 0 where
  dmrq_update retq_update dmaq_preempt cmdq_preempt status_update : Work

-- field_get of a field one bit wide
abbrev pub bit_at : ℕ → ℕ → Bool
bit_at shift value = (value / 2 ^ shift) % 2 == 1

abbrev pub work_if : Bool → Work → List Work
work_if true w = w ∷ []
work_if false w = []

-- The works that the handler queues, in its order, with the memory after its three writes and
-- one ring of the doorbell.
unfoldable pub event_isr : Mem → Mem × List Work
event_isr mmio =
    let pending = rd32 mmio reg_intr_pending in
    (
      wr32 (wr32 mmio reg_intr_status pending) reg_intr_ack 0,
      work_if (bit_at 4 pending) dmrq_update
          ++ (work_if (bit_at 3 pending) retq_update
              ++ (work_if (bit_at 2 pending) dmaq_preempt
                  ++ (work_if (bit_at 1 pending) cmdq_preempt
                      ++ work_if (bit_at 0 pending) status_update))),
    )

-- the five events enabled, each by its bit
abbrev pub intr_enable_mask : ℕ
intr_enable_mask = 0x1F

-- The register writes of `mxvp_events_init` once the interrupt is requested.
unfoldable pub enable_events : Mem → Mem
enable_events mmio =
    wr32 (wr32 (wr32 mmio reg_intr_status 0) reg_intr_ack 0) reg_intr_enable intr_enable_mask

-- The register writes of `mxvp_events_cleanup`.
unfoldable pub disable_events : Mem → Mem
disable_events mmio = wr32 (wr32 (wr32 mmio reg_intr_enable 0) reg_intr_status 0) reg_intr_ack 0

-- The loop of `mxvp_bspec_startup_check` from the `i`-th read of the main magic, with `retries` left:
-- `good` says whether that read gives the expected text.
unfoldable pub magic_found : ℕ → (ℕ → Bool) → ℕ → Bool
magic_found zero good i = good i
magic_found (suc retries) good i =
    let again = magic_found retries good (i + 1) in if good i then true else again

abbrev pub startup_retries : ℕ
startup_retries = 10

-- The check, and the one-time setting of the reply order; `none` for -EIO.
unfoldable pub startup_check : (ℕ → Bool) → Mem → Option Mem
startup_check good mmio =
    if magic_found startup_retries good 0
    then some (wr16 mmio reg_reply_order (bit_or (rd16 mmio reg_reply_order) 3))
    else none

-- What the environment answers during the set-up: whether there are a work queue and a device, the
-- outcome of the PCI set-up and of the two interrupt calls, and of the three allocations.
pub record Platform : Type 0 where
  pub has_wq : Bool
  pub has_pci : Bool
  pub pci_ok : Bool
  pub vectors_ok : Bool
  pub irq_ok : Bool
  pub good_magic : ℕ → Bool
  pub blocks_ok : Bool
  pub cmd_list_ok : Bool
  pub dma_list_ok : Bool
  pub ddr_virt : ℕ

-- The call at which the set-up stops.
pub data Failure : Type 0 where
  no_wq no_pci pci_failed events_failed startup_failed pool_failed cmd_list_failed dma_list_failed :
      Failure

pub record Ready : Type 0 where
  pub mmio : Mem
  pub cmdq : Queue
  pub retq : Queue
  pub dmaq : Queue
  pub dmrq : Queue
  pub ddr_phys : ℕ
  pub ddr_size : ℕ
  pub pool : MemPool
  pub cmd_list : CmdList
  pub dma_list : CmdList

-- `overran`: the code has left the pool's array, and what it does from there is not modelled.
pub data Outcome : Type 0 where
  failed : Failure → Outcome
  ready : Ready → Outcome
  overran : Outcome

abbrev pub page_size : ℕ
page_size = 4096

abbrev pub cmd_list_entries : ℕ
cmd_list_entries = 200

abbrev pub dma_list_entries : ℕ
dma_list_entries = 300

-- The last part of `mxvp_bspec_init`: queues, memory and lists.
unfoldable pub set_up : Platform → Mem → Outcome
set_up p mmio =
    let ddr_phys = rd64 mmio reg_ddr_phy_address in
    let ddr_size = (rd32 mmio reg_ddr_size * page_size) % 2 ^ 32 in
    let (pool, s) = mem_init p.blocks_ok p.ddr_virt ddr_phys ddr_size in
    elim s [
      | enomem ↦ failed pool_failed
      | overrun ↦ overran
      | init_ok ↦ elim (cmd_list_init p.cmd_list_ok cmd_list_entries) [
        | none ↦ failed cmd_list_failed
        | some cmds ↦ elim (cmd_list_init p.dma_list_ok dma_list_entries) [
          | none ↦ failed dma_list_failed
          | some dmas ↦ ready (record {
            mmio = mmio;
            cmdq = queue_init mmio 0 reg_cmdq_start;
            retq = queue_init mmio 0 reg_retq_start;
            dmaq = queue_init mmio 0 reg_dmaq_start;
            dmrq = queue_init mmio 0 reg_dmrq_start;
            ddr_phys = ddr_phys;
            ddr_size = ddr_size;
            pool = pool;
            cmd_list = cmds;
            dma_list = dmas;
          })
        ]
      ]
    ]

unfoldable pub bspec_init : Platform → Mem → Outcome
bspec_init p mmio =
    if p.has_wq
    then if p.has_pci
      then if p.pci_ok
        then if p.vectors_ok
          then if p.irq_ok
            then elim (startup_check p.good_magic (enable_events mmio)) [
              | none ↦ failed startup_failed
              | some mmio' ↦ set_up p mmio'
            ]
            else failed events_failed
          else failed events_failed
        else failed pci_failed
      else failed no_pci
    else failed no_wq
