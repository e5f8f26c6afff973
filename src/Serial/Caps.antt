-- ===== src/Serial/Caps.antt =====
-- serial/mxlk/mxlk_capabilities.c: the list of capabilities in the device's memory.
pub mod Find
use pcie_host_driver.Prelude.{
  ℕ, zero, suc, ◌+◌, ◌%◌, ◌^◌, Bool, Option, none, some, ◌==◌, if◌then◌else◌,
}
use pcie_host_driver.Mmio.{Mem, rd16, rd32}

abbrev pub reg_cap_offset : ℕ
reg_cap_offset = 28

-- the fields of `struct mxlk_cap_hdr`
abbrev pub cap_id : Mem → ℕ → ℕ
cap_id mmio hdr = rd16 mmio hdr

abbrev pub cap_next : Mem → ℕ → ℕ
cap_next mmio hdr = rd16 mmio (hdr + 2)

abbrev pub cap_null : ℕ
cap_null = 0

abbrev pub cap_txrx : ℕ
cap_txrx = 3

abbrev pub cap_ttl : ℕ
cap_ttl = 32

unfoldable pub cap_walk : ℕ → Mem → ℕ → ℕ → Option ℕ
cap_walk zero mmio hdr id = none
cap_walk (suc ttl) mmio hdr id =
    let next = cap_walk ttl mmio (cap_next mmio hdr) id in
    if cap_id mmio hdr == id then some hdr else if cap_id mmio hdr == cap_null then none else next

-- `start` is 16 bits wide, and the offset that is read into it is cut to that.
unfoldable pub cap_find : Mem → ℕ → ℕ → Option ℕ
cap_find mmio start id =
    let first = if start == 0 then rd32 mmio reg_cap_offset % 2 ^ 16 else start in
    cap_walk cap_ttl mmio first id
