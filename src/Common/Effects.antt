-- ===== src/Common/Effects.antt =====
-- common: what the drivers' control code does to the kernel and the device, as a list of acts, and
-- what of the kernel's it holds.
pub mod Ledger
use pcie_host_driver.Prelude.{ℕ, Bool, true, false, Option, none, some, List, [], ◌∷◌, ◌++◌}

-- What a driver instance holds: its own structure, the enabled PCI function, its memory regions and their mappings, the
-- interrupt vectors and the handler, the device node, the rings and pools of the serial driver and
-- its debug file, and the block pool and the two command lists of the processor's driver; and what a
-- module holds: its work queue, its class of devices, their numbers and the registered driver.
pub data Resource : Type 0 where
  instance_memory device regions mapping ddr_mapping vectors irq char_device streams debug_file
        blocks cmd_list dma_list work_queue device_class device_numbers pci_driver :
      Resource

-- the work items that are queued and cancelled
pub data Job : Type 0 where
  rx_event tx_event send_doorbell status_update dmrq_update retq_update dmaq_preempt cmdq_preempt :
      Job

-- A call of the kernel, or a write to the configuration space, to the link control or to the control
-- word of the MSI capability. A wait for pending transactions carries the kernel's answer: `false` when
-- some were still pending as its time was up. `stray_unmap` is an iounmap of an address that is not the mapping's.
pub data Act : Type 0 where
  acquire release : Resource → Act
  stray_unmap : Act
  write_config : ℕ → ℕ → Act
  write_link write_msi : ℕ → Act
  set_master : Bool → Act
  save_ctx restore_ctx lock_device unlock_device : Act
  wait_pending : Bool → Act
  queue_job cancel_job : Job → Act

-- what has been done, and a result
abbrev pub Run : Type 0 → Type 0
Run A = List Act × A

infixl 5 ◌>>=◌ ◌>>◌
abbrev pub ◌>>=◌ : {A B : Type 0} → Run A → (A → Run B) → Run B
(acts, a) >>= f = (acts ++ (f a).0, (f a).1)

abbrev pub ◌>>◌ : {B : Type 0} → Run (Unit {0}) → Run B → Run B
(acts, a) >> (acts', b) = (acts ++ acts', b)

abbrev pub does : List Act → Run (Unit {0})
does acts = (acts, tt)

abbrev pub return : {A : Type 0} → A → Run A
return a = ([], a)

-- which resources are held
pub record Held : Type 0 where
  pub instance_memory : Bool
  pub device : Bool
  pub regions : Bool
  pub mapping : Bool
  pub ddr_mapping : Bool
  pub vectors : Bool
  pub irq : Bool
  pub char_device : Bool
  pub streams : Bool
  pub debug_file : Bool
  pub blocks : Bool
  pub cmd_list : Bool
  pub dma_list : Bool
  pub work_queue : Bool
  pub device_class : Bool
  pub device_numbers : Bool
  pub pci_driver : Bool

abbrev pub nothing : Held
nothing = record {
  instance_memory = false;
  device = false;
  regions = false;
  mapping = false;
  ddr_mapping = false;
  vectors = false;
  irq = false;
  char_device = false;
  streams = false;
  debug_file = false;
  blocks = false;
  cmd_list = false;
  dma_list = false;
  work_queue = false;
  device_class = false;
  device_numbers = false;
  pci_driver = false;
}

abbrev pub holds : Held → Resource → Bool
holds h instance_memory = h.instance_memory
holds h device = h.device
holds h regions = h.regions
holds h mapping = h.mapping
holds h ddr_mapping = h.ddr_mapping
holds h vectors = h.vectors
holds h irq = h.irq
holds h char_device = h.char_device
holds h streams = h.streams
holds h debug_file = h.debug_file
holds h blocks = h.blocks
holds h cmd_list = h.cmd_list
holds h dma_list = h.dma_list
holds h work_queue = h.work_queue
holds h device_class = h.device_class
holds h device_numbers = h.device_numbers
holds h pci_driver = h.pci_driver

abbrev pub mark : Held → Resource → Bool → Held
mark h instance_memory b = record h { instance_memory = b }
mark h device b = record h { device = b }
mark h regions b = record h { regions = b }
mark h mapping b = record h { mapping = b }
mark h ddr_mapping b = record h { ddr_mapping = b }
mark h vectors b = record h { vectors = b }
mark h irq b = record h { irq = b }
mark h char_device b = record h { char_device = b }
mark h streams b = record h { streams = b }
mark h debug_file b = record h { debug_file = b }
mark h blocks b = record h { blocks = b }
mark h cmd_list b = record h { cmd_list = b }
mark h dma_list b = record h { dma_list = b }
mark h work_queue b = record h { work_queue = b }
mark h device_class b = record h { device_class = b }
mark h device_numbers b = record h { device_numbers = b }
mark h pci_driver b = record h { pci_driver = b }
