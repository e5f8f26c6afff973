-- ===== src/Vpu/Life.antt =====
-- vpu/mxvp/mxvp_pci.c, mxvp_main.c and mxvp_bspec.c: what bringing the processor's driver up and down
-- does to the kernel; the set-up's outcome is that of `bspec_init`.
pub mod Holds
pub mod Removal
use pcie_host_driver.Prelude.{
  ℕ, Bool, true, false, Option, none, some, List, [], ◌∷◌, ◌++◌, ltb, if◌then◌else◌,
}
use pcie_host_driver.Mmio.{Mem, rd16}
use pcie_host_driver.Common.Effects.{
  Act, acquire, release, instance_memory, device, regions, mapping, ddr_mapping, vectors, irq,
  blocks, cmd_list, dma_list, write_config, write_link, set_master, cancel_job, dmrq_update,
  retq_update, dmaq_preempt, cmdq_preempt, status_update, Run, ◌>>=◌, ◌>>◌, does, return,
}
use pcie_host_driver.Common.Pci.{set_aspm}
use pcie_host_driver.Vpu.Blocks.{mem_cleanup}
use pcie_host_driver.Vpu.CmdList.{Call, cmd_list_cleanup}
use pcie_host_driver.Vpu.Events.{
  Platform, Failure, no_wq, no_pci, pci_failed, events_failed, startup_failed, pool_failed,
  cmd_list_failed, dma_list_failed, Outcome, failed, ready, overran, Ready, bspec_init,
  disable_events,
}

-- the answers to the calls of `mxvp_pci_init`, the link control register, if the capability is found,
-- and the module's parameter
pub record VpuPci : Type 0 where
  pub enabled : Bool
  pub requested : Bool
  pub mmio_ok : Bool
  pub ddr_ok : Bool
  pub dma64 : Bool
  pub dma32 : Bool
  pub link_control : Option ℕ
  pub aspm : ℕ

-- `mxvp_pci_set_aspm`
unfoldable pub pci_set_aspm : Option ℕ → ℕ → List Act
pci_set_aspm link_control aspm = elim link_control [
  | none ↦ []
  | some v ↦ write_link (set_aspm v aspm) ∷ []
]

-- `mxvp_pci_init`, which gives up nothing when it fails
unfoldable pub pci_init : VpuPci → Run Bool
pci_init p =
    if p.enabled
    then if p.requested
      then if p.mmio_ok
        then if p.ddr_ok
          then (
            (acquire device ∷ acquire regions ∷ acquire mapping ∷ acquire ddr_mapping ∷ [])
                ++ (if (if p.dma64 then true else p.dma32)
                    then pci_set_aspm p.link_control p.aspm ++ (set_master true ∷ [])
                    else []),
            if p.dma64 then true else p.dma32,
          )
          else (acquire device ∷ acquire regions ∷ acquire mapping ∷ [], false)
        else (acquire device ∷ acquire regions ∷ [], false)
      else (acquire device ∷ [], false)
    else ([], false)

abbrev pub pci_cleanup : List Act
pci_cleanup = release mapping ∷ release ddr_mapping ∷ release regions ∷ release device ∷ []

-- what `mxvp_events_init` acquires
abbrev pub events_acts : Bool → Bool → List Act
events_acts vectors_ok irq_ok =
    if vectors_ok
    then if irq_ok then acquire vectors ∷ acquire irq ∷ [] else acquire vectors ∷ []
    else []

-- what the set-up has done behind the PCI function when it stops with an outcome
unfoldable pub acts_of : Bool → Bool → Outcome → List Act
acts_of v i (failed no_wq) = []
acts_of v i (failed no_pci) = []
acts_of v i (failed pci_failed) = []
acts_of v i (failed events_failed) = events_acts v i
acts_of v i (failed startup_failed) = events_acts v i
acts_of v i (failed pool_failed) = events_acts v i
acts_of v i (failed cmd_list_failed) = events_acts v i ++ (acquire blocks ∷ [])
acts_of v i (failed dma_list_failed) = events_acts v i ++ (acquire blocks ∷ acquire cmd_list ∷ [])
acts_of v i overran = events_acts v i
acts_of v i (ready r) =
    events_acts v i ++ (acquire blocks ∷ acquire cmd_list ∷ acquire dma_list ∷ [])

-- `mxvp_bspec_init`: with the outcome of the PCI function's set-up for the one of `p`
unfoldable pub bspec_run : VpuPci → Platform → Mem → Run Outcome
bspec_run a p mmio =
    let pci = pci_init a in
    let outcome = bspec_init (record p { pci_ok = pci.1 }) mmio in
    let pci_acts = if p.has_wq then if p.has_pci then pci.0 else [] else [] in
    (pci_acts ++ acts_of p.vectors_ok p.irq_ok outcome, outcome)

-- `mxvp_events_cleanup`, less its register writes
abbrev pub events_cleanup_acts : List Act
events_cleanup_acts =
    cancel_job dmrq_update
    ∷ cancel_job retq_update
    ∷ cancel_job dmaq_preempt
    ∷ cancel_job cmdq_preempt
    ∷ cancel_job status_update
    ∷ release irq
    ∷ release vectors
    ∷ []

-- `mxvp_bspec_cleanup`: the device's memory and the callbacks of the commands that are discarded
unfoldable pub bspec_cleanup : Mem → Ready → Run (Ready × List Call)
bspec_cleanup kmem r = do
  does (release blocks ∷ [])
  does events_cleanup_acts
  does (release cmd_list ∷ [])
  does (release dma_list ∷ [])
  does pci_cleanup
  return (
    record r { mmio = disable_events r.mmio; pool = mem_cleanup r.pool },
    cmd_list_cleanup kmem r.cmd_list ++ cmd_list_cleanup kmem r.dma_list,
  )

abbrev pub doorbell_addr : ℕ
doorbell_addr = 0xFF0

-- "NCMD"
abbrev pub doorbell_data : ℕ
doorbell_data = 0x4E434D44

abbrev pub ring_doorbell : Act
ring_doorbell = write_config doorbell_addr doorbell_data

abbrev pub reg_temperature : ℕ
reg_temperature = 0x0012

-- `mxvp_read_temperature`: an s16, as its bit pattern
abbrev pub read_temperature : Mem → ℕ
read_temperature mmio = rd16 mmio reg_temperature

-- `mxvp_probe`; `none` for -ENOMEM
unfoldable pub probe : Bool → VpuPci → Platform → Mem → Run (Option Outcome)
probe memory_ok a p mmio =
    if memory_ok
    then (do does (acquire instance_memory ∷ []); o ← bspec_run a p mmio; return (some o))
    else return none

-- `mxvp_remove`
unfoldable pub remove : Mem → Ready → Run (Ready × List Call)
remove kmem r = do e ← bspec_cleanup kmem r; does (release instance_memory ∷ []); return e
