-- ===== src/Loader/Module.antt =====
-- boot/mxbl/mxbl_main.c and mxbl_char.c: loading and unloading the module, as it is built without an
-- embedded image.
use pcie_host_driver.Prelude.{
  ◌≡◌, refl, Bool, true, false, Bool-cases, inl, inr, some, List, [], ◌∷◌, ◌++◌, if◌then◌else◌,
}
use pcie_host_driver.Common.Effects.{
  Act, acquire, release, work_queue, device_class, device_numbers, pci_driver, nothing, Run, ◌>>=◌,
  ◌>>◌, does, return,
}
use pcie_host_driver.Common.Effects.Ledger.{books}

-- the answers of the kernel while the module is loaded
pub record ModuleAnswers : Type 0 where
  pub queue_ok : Bool
  pub class_ok : Bool
  pub numbers_ok : Bool
  pub driver_ok : Bool

-- `mxbl_chrdev_init`; `false` for an error
unfoldable pub chrdev_init : ModuleAnswers → Run Bool
chrdev_init a =
    if a.class_ok
    then if a.numbers_ok
      then (acquire device_class ∷ acquire device_numbers ∷ [], true)
      else (acquire device_class ∷ [], false)
    else return false

-- `mxbl_chrdev_exit`: the numbers only where there are some; the class of a failed creation is an error
-- pointer, which is not destroyed
unfoldable pub chrdev_exit : ModuleAnswers → List Act
chrdev_exit a =
    if a.class_ok
    then if a.numbers_ok
      then release device_numbers ∷ release device_class ∷ []
      else release device_class ∷ []
    else []

-- `mxbl_init_module`, which does not look at the outcome of `mxbl_chrdev_init`; `false` for an error
unfoldable pub init_module : ModuleAnswers → Run Bool
init_module a =
    if a.queue_ok
    then (do
      does (acquire work_queue ∷ [])
      made ← chrdev_init a
      does (if a.driver_ok then acquire pci_driver ∷ [] else [])
      return a.driver_ok)
    else return false

-- `mxbl_exit_module`
unfoldable pub exit_module : ModuleAnswers → List Act
exit_module a = release pci_driver ∷ release work_queue ∷ chrdev_exit a

-- A module that is loaded, whether or not its devices' class and numbers are granted, and then unloaded
-- leaves nothing.
exit-init_module :
    (a : ModuleAnswers)
    → (init_module a).1 ≡ true
    → books ((init_module a).0 ++ exit_module a) nothing ≡ some nothing
unfolding init_module exit_module chrdev_init chrdev_exit books
exit-init_module a ok = elim (Bool-cases a.queue_ok) [
  | inr q ↦ let e : (init_module a).1 ≡ false = rw (q, init_module) refl in absurd (cc (e, ok))
  | inl q ↦ elim (Bool-cases a.driver_ok) [
    | inr d ↦ let e : (init_module a).1 ≡ false = rw (q, d, init_module) refl in absurd (cc (e, ok))
    | inl d ↦ elim (Bool-cases a.class_ok) [
      | inr c ↦ rw (q, d, c) refl
      | inl c ↦ elim (Bool-cases a.numbers_ok) [
        | inr n ↦ rw (q, d, c, n) refl
        | inl n ↦ rw (q, d, c, n) refl
      ]
    ]
  ]
]
