-- ===== src/Tests/Instances.antt =====
-- Instances of the loader and of the processor's driver, and a module.
use pcie_host_driver.Prelude.{ℕ, ◌≡◌, refl, sym, Bool, true, false, none, some, ◌++◌, arith, ◌==◌}
use pcie_host_driver.Mmio.{rd16, rd32, wr16, wr32, rd_buf, wr_buf, update}
use pcie_host_driver.Common.Effects.{nothing}
use pcie_host_driver.Common.Effects.Ledger.{books}
use pcie_host_driver.Common.Opmode.{get_opmode}
use pcie_host_driver.Common.Boot.{status_update_int_enable}
use pcie_host_driver.Common.Reset
use pcie_host_driver.Common.Reset.{reset_device}
use pcie_host_driver.Common.Pci
use pcie_host_driver.Common.Pci.{pci_init, pci_irq_init}
use pcie_host_driver.Vpu.Events.{Platform, Ready, ready, bspec_init, enable_events}
use pcie_host_driver.Vpu.Events.Init.{IsReady, bspec_init-IsReady}
use pcie_host_driver.Vpu.Life
use pcie_host_driver.Vpu.Life.{VpuPci}
use pcie_host_driver.Vpu.Life.Holds.{with_outcome, base_held, probe-with_outcome}
use pcie_host_driver.Vpu.Life.Removal.{all_held, probe-remove_ready}
use pcie_host_driver.Loader
use pcie_host_driver.Loader.{Mxbl, LoaderAnswers, LoaderStatus, loader_ok}
use pcie_host_driver.Loader.Life.{zeroed, LoaderGranted, probe-remove_few, probe_full}
use pcie_host_driver.Serial.Module.{
  ModuleAnswers, chrdev_init, init_module, exit_module, exit-init_module,
}
use pcie_host_driver.Tests.Driver.{platform, ddr_memory}
use pcie_host_driver.Tests.Life.{silent, boot_memory, pci_granted, irq_granted, revived}

abbrev loader_answers : LoaderAnswers
loader_answers = record {
  has_wq = true;
  has_pci = true;
  pci = pci_granted;
  irq = irq_granted boot_memory;
  revived = revived boot_memory;
  irq_again = irq_granted boot_memory;
  node_ok = true;
  cdev_ok = true;
}

-- a loader with a number of instances before it
abbrev loader_of : ℕ → Bool → Mxbl
loader_of units added = record {
  units_found = units;
  mmio = boot_memory;
  unit = 0;
  added = added;
  minor = 0;
}

fresh_loader : (Loader.core_init loader_answers (zeroed (loader_of 0 false))).1.1 ≡ loader_ok
unfolding Loader.core_init pci_init Loader.init_events Loader.events_init pci_irq_init
    Loader.init_reset Loader.init_unit Loader.chrdev_add get_opmode rd_buf status_update_int_enable
    wr32
fresh_loader = refl

fresh_node : (Loader.core_init loader_answers (zeroed (loader_of 0 false))).1.0.added ≡ true
unfolding Loader.core_init pci_init Loader.init_events Loader.events_init pci_irq_init
    Loader.init_reset Loader.init_unit Loader.chrdev_add get_opmode rd_buf status_update_int_enable
    wr32
fresh_node = refl

probe-remove_few_example :
    books
      ((Loader.probe true loader_answers (zeroed (loader_of 0 false))).0
        ++ (Loader.remove (loader_of 1 true)).0)
      nothing
    ≡ some nothing
probe-remove_few_example =
    probe-remove_few loader_answers (loader_of 0 false) (loader_of 1 true) (refl, refl) fresh_loader
      (omega arith) (sym fresh_node)

loader-LoaderGranted : LoaderGranted loader_answers
unfolding pci_init reset_device Reset.restore_and_check_device Pci.dev_id_valid get_opmode rd_buf
loader-LoaderGranted = record {
  wq = refl;
  dev = refl;
  function = refl;
  vectors = refl;
  irq = refl;
  reset = refl;
  again = (refl, refl);
}

probe_full_example :
    let up = (Loader.probe true loader_answers (zeroed (loader_of 8 false))).0 in
    ((Loader.probe true loader_answers (zeroed (loader_of 8 false))).1.1 ≡ some loader_ok)
    × (books up nothing ≡ some (record nothing { instance_memory = true }))
    × (books (up ++ (Loader.remove (loader_of 9 false)).0) nothing ≡ none)
probe_full_example =
    probe_full loader_answers (loader_of 8 false) (loader_of 9 false) loader-LoaderGranted
      (omega arith)

abbrev vpu_pci : VpuPci
vpu_pci = record {
  enabled = true;
  requested = true;
  mmio_ok = true;
  ddr_ok = true;
  dma64 = true;
  dma32 = true;
  link_control = some 0;
  aspm = 0;
}

abbrev board : Platform
board = platform (λ n. n == 3)

brings_up : (r : Ready) × (bspec_init board ddr_memory ≡ ready r) × IsReady 1 r
unfolding rd16 rd32 wr16 wr32 rd_buf wr_buf update enable_events
brings_up =
    bspec_init-IsReady board ddr_memory 1 3 refl refl refl refl refl (omega arith) refl refl refl
      refl refl

runs_up : (Life.bspec_run vpu_pci board ddr_memory).1 ≡ ready brings_up.0
unfolding Life.bspec_run Life.pci_init
runs_up = brings_up.1

with_outcome_example :
    books (Life.probe true vpu_pci board ddr_memory).0 nothing
    ≡ some (
        with_outcome true true
          (Life.bspec_run vpu_pci board ddr_memory).1
          (base_held vpu_pci board))
with_outcome_example = probe-with_outcome vpu_pci board ddr_memory

remove_ready_example :
    (books (Life.probe true vpu_pci board ddr_memory).0 nothing ≡ some all_held)
    × (books
          ((Life.probe true vpu_pci board ddr_memory).0 ++ (Life.remove silent brings_up.0).0)
          nothing
        ≡ some nothing)
remove_ready_example =
    probe-remove_ready vpu_pci board ddr_memory silent brings_up.0 brings_up.0 runs_up

-- a module whose device numbers are refused
abbrev module_answers : ModuleAnswers
module_answers = record { queue_ok = true; class_ok = true; numbers_ok = false; driver_ok = true }

exit-init_module_example :
    books ((init_module module_answers).0 ++ exit_module module_answers) nothing
    ≡ some (record nothing { work_queue = true })
unfolding init_module chrdev_init
exit-init_module_example = exit-init_module module_answers refl
