-- ===== src/Vpu/Module.antt =====
-- vpu/mxvp/mxvp_main.c: loading and unloading the module.
use pcie_host_driver.Prelude.{
  ◌≡◌, refl, Bool, true, false, some, List, [], ◌∷◌, ◌++◌, if◌then◌else◌,
}
use pcie_host_driver.Common.Effects.{
  Act, acquire, release, work_queue, pci_driver, nothing, Run, ◌>>◌, does, return,
}
use pcie_host_driver.Common.Effects.Ledger.{books}

-- `mxvp_init_module`, of the outcomes of alloc_workqueue and pci_register_driver; `false` for an error
unfoldable pub init_module : Bool → Bool → Run Bool
init_module queue_ok driver_ok =
    if queue_ok
    then (do
      does (acquire work_queue ∷ [])
      does (if driver_ok then acquire pci_driver ∷ [] else [])
      return driver_ok)
    else return false

-- `mxvp_exit_module`
abbrev pub exit_module : List Act
exit_module = release pci_driver ∷ release work_queue ∷ []

-- A module that is loaded and then unloaded leaves nothing.
exit-init_module :
    (queue_ok driver_ok : Bool)
    → (init_module queue_ok driver_ok).1 ≡ true
    → books ((init_module queue_ok driver_ok).0 ++ exit_module) nothing ≡ some nothing
unfolding init_module books
exit-init_module true true ok = refl
exit-init_module true false ok = absurd (cc ok)
exit-init_module false d ok = absurd (cc ok)
