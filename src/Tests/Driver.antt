-- ===== src/Tests/Driver.antt =====
-- The processor's driver: its commands, its interrupt and its set-up.
use pcie_host_driver.Prelude.{ℕ, ◌≡◌, refl, Bool, true, arith, ◌==◌, if◌then◌else◌}
use pcie_host_driver.Mmio.{Mem, rd16, rd32, rd64, wr16, wr32, wr_buf, rd_buf, update}
use pcie_host_driver.Vpu.Bspec.{cmd_mem_fill}
use pcie_host_driver.Vpu.Bspec.Send.{IsCommand}
use pcie_host_driver.Vpu.Cmd.{alloc_mem_fill}
use pcie_host_driver.Vpu.Cmd.Fields.{IsBuilt, alloc_mem_fill-fields}
use pcie_host_driver.Vpu.Events.{Platform, Ready, ready, bspec_init, enable_events}
use pcie_host_driver.Vpu.Events.Init.{IsReady, bspec_init-IsReady}

mem_fill_example :
    let k = alloc_mem_fill 100 (λ a. 0) 4096 10 7 in
    IsBuilt k 100 32 cmd_mem_fill
    × IsCommand k 100
    × (rd64 k 116 ≡ 4096)
    × (rd32 k 124 ≡ 12)
    × (rd32 k 128 ≡ 7)
mem_fill_example =
    alloc_mem_fill-fields 100 (λ a. 0) 4096 10 7 (omega arith) (omega arith) (omega arith)
      (omega arith)

abbrev pub platform : (ℕ → Bool) → Platform
platform good = record {
  has_wq = true;
  has_pci = true;
  pci_ok = true;
  vectors_ok = true;
  irq_ok = true;
  good_magic = good;
  blocks_ok = true;
  cmd_list_ok = true;
  dma_list_ok = true;
  ddr_virt = 0;
}

-- a DDR of 8 pages, which are two blocks
abbrev pub ddr_memory : Mem
ddr_memory a = if a == 0x14 then 8 else 0

init_example :
    (r : Ready) × (bspec_init (platform (λ n. n == 3)) ddr_memory ≡ ready r) × IsReady 1 r
unfolding rd16 rd32 wr16 wr32 rd_buf wr_buf update enable_events
init_example =
    bspec_init-IsReady (platform (λ n. n == 3)) ddr_memory 1 3 refl refl refl refl refl
      (omega arith) refl refl refl refl refl
