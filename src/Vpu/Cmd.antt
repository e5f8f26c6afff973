-- ===== src/Vpu/Cmd.antt =====
-- vpu/mxvp/mxvp_cmd.c: the builders of commands. A command is built in the kernel's memory at the
-- address that kzalloc returns, a parameter here; 0 is NULL.
pub mod Fields
use pcie_host_driver.Prelude.{
  ℕ, ◌+◌, ◌*◌, ◌/◌, ◌%◌, ◌^◌, ◌-◌, List, [], ◌∷◌, replicate, ◌==◌, if◌then◌else◌,
}
use pcie_host_driver.Mmio.{Mem, wr_buf, wr16, wr32, wr64}
use pcie_host_driver.Vpu.Queue.{roundup}
use pcie_host_driver.Vpu.Bspec.{
  cmd_exe_buffer, cmd_dma_read, cmd_dma_write, cmd_multi_dma_read, cmd_multi_dma_write,
  cmd_mem_fill, cmd_fence,
}

abbrev pub cmd_hdr_version : ℕ
cmd_hdr_version = 0x01

abbrev pub command_alignment : ℕ
command_alignment = 4

-- sizes of the packed structures
abbrev pub sizeof_cmd : ℕ
sizeof_cmd = 16

abbrev pub sizeof_exec_buffer : ℕ
sizeof_exec_buffer = 12

abbrev pub sizeof_dma : ℕ
sizeof_dma = 4

abbrev pub sizeof_dma_desc : ℕ
sizeof_dma_desc = 20

abbrev pub sizeof_multi_dma : ℕ
sizeof_multi_dma = 12

abbrev pub sizeof_mem_fill : ℕ
sizeof_mem_fill = 16

-- kzalloc of `length` bytes at `p`, then `length` and `version` of the header
unfoldable pub start_header : Mem → ℕ → ℕ → Mem
start_header kmem p length =
    wr16 (wr32 (wr_buf kmem p (replicate length 0)) p (roundup length command_alignment)) (p + 8)
      cmd_hdr_version

unfoldable pub header : Mem → ℕ → ℕ → ℕ → Mem
header kmem p length op = wr32 (start_header kmem p length) (p + 12) op

unfoldable pub alloc_exe_buffer : ℕ → Mem → ℕ → ℕ → Mem
alloc_exe_buffer p kmem address size =
    if p == 0
    then kmem
    else wr32
        (wr64 (header kmem p (sizeof_cmd + sizeof_exec_buffer) cmd_exe_buffer) (p + 16) address)
        (p + 24) size

unfoldable pub alloc_dma_read : ℕ → Mem → ℕ → Mem
alloc_dma_read p kmem ndesc =
    if p == 0
    then kmem
    else wr32 (header kmem p (sizeof_cmd + sizeof_dma + sizeof_dma_desc * ndesc) cmd_dma_read)
        (p + 16) ndesc

unfoldable pub alloc_dma_write : ℕ → Mem → ℕ → Mem
alloc_dma_write p kmem ndesc =
    if p == 0
    then kmem
    else wr32 (header kmem p (sizeof_cmd + sizeof_dma + sizeof_dma_desc * ndesc) cmd_dma_write)
        (p + 16) ndesc

-- The common part leaves `command` at 0.
unfoldable pub alloc_multi_dma_common : ℕ → Mem → ℕ → ℕ → Mem
alloc_multi_dma_common p kmem address ndesc =
    if p == 0
    then kmem
    else wr32 (wr64 (start_header kmem p (sizeof_cmd + sizeof_multi_dma)) (p + 16) address) (p + 24)
        (sizeof_dma_desc * ndesc)

unfoldable pub alloc_multi_dma_read : ℕ → Mem → ℕ → ℕ → Mem
alloc_multi_dma_read p kmem buffer ndesc =
    if p == 0
    then kmem
    else wr32 (alloc_multi_dma_common p kmem buffer ndesc) (p + 12) cmd_multi_dma_read

unfoldable pub alloc_multi_dma_write : ℕ → Mem → ℕ → ℕ → Mem
alloc_multi_dma_write p kmem buffer ndesc =
    if p == 0
    then kmem
    else wr32 (alloc_multi_dma_common p kmem buffer ndesc) (p + 12) cmd_multi_dma_write

unfoldable pub alloc_mem_fill : ℕ → Mem → ℕ → ℕ → ℕ → Mem
alloc_mem_fill p kmem address size pattern' =
    if p == 0
    then kmem
    else wr32
        (wr32 (wr64 (header kmem p (sizeof_cmd + sizeof_mem_fill) cmd_mem_fill) (p + 16) address)
          (p + 24) (roundup size 4))
        (p + 28) pattern'

unfoldable pub alloc_fence : ℕ → Mem → Mem
alloc_fence p kmem = if p == 0 then kmem else header kmem p sizeof_cmd cmd_fence
