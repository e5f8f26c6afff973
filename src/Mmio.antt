-- ===== src/Mmio.antt =====
-- common/mx_mmio.h and vpu/mxvp/mxvp_mmio.h: access to the memory that the device exposes.
-- The two headers define the same accessors; both are little endian on every platform, since
-- ioread32 and iowrite32 are. A memory is the byte at each address.
pub mod Laws
use pcie_host_driver.Prelude.{
  ℕ, zero, suc, ◌+◌, ◌*◌, ◌/◌, ◌%◌, ◌^◌, List, [], ◌∷◌, ◌==◌, if◌then◌else◌,
}

abbrev pub Mem : Type 0
Mem = ℕ → ℕ

abbrev pub Bytes : Type 0
Bytes = List ℕ

-- the memory that a pointer to address `a` leads to
abbrev pub offset : Mem → ℕ → Mem
offset m a x = m (a + x)

-- one byte written
unfoldable pub update : Mem → ℕ → ℕ → Mem
update m a b x = if x == a then b else m x

-- memcpy_fromio
unfoldable pub rd_buf : Mem → ℕ → ℕ → Bytes
rd_buf m a zero = []
rd_buf m a (suc n) = m a ∷ rd_buf m (a + 1) n

-- memcpy_toio
unfoldable pub wr_buf : Mem → ℕ → Bytes → Mem
wr_buf m a [] = m
wr_buf m a (b ∷ bs) = wr_buf (update m a b) (a + 1) bs

-- The value of little endian bytes, and the `n` low bytes of a value.
abbrev pub le_value : Bytes → ℕ
le_value [] = 0
le_value (b ∷ bs) = b + 256 * le_value bs

abbrev pub le_bytes : ℕ → ℕ → Bytes
le_bytes zero v = []
le_bytes (suc n) v = v % 256 ∷ le_bytes n (v / 256)

unfoldable pub rd8 : Mem → ℕ → ℕ
unfolding rd_buf
rd8 m a = le_value (rd_buf m a 1)

unfoldable pub rd16 : Mem → ℕ → ℕ
unfolding rd_buf
rd16 m a = le_value (rd_buf m a 2)

unfoldable pub rd32 : Mem → ℕ → ℕ
unfolding rd_buf
rd32 m a = le_value (rd_buf m a 4)

-- low | (high << 32): the two halves have no bit in common
unfoldable pub rd64 : Mem → ℕ → ℕ
unfolding rd32
rd64 m a = rd32 m a + rd32 m (a + 4) * 2 ^ 32

unfoldable pub wr8 : Mem → ℕ → ℕ → Mem
unfolding wr_buf update
wr8 m a v = wr_buf m a (le_bytes 1 v)

unfoldable pub wr16 : Mem → ℕ → ℕ → Mem
unfolding wr_buf update
wr16 m a v = wr_buf m a (le_bytes 2 v)

unfoldable pub wr32 : Mem → ℕ → ℕ → Mem
unfolding wr_buf update
wr32 m a v = wr_buf m a (le_bytes 4 v)

unfoldable pub wr64 : Mem → ℕ → ℕ → Mem
unfolding wr32
wr64 m a v = wr32 (wr32 m a v) (a + 4) (v / 2 ^ 32)
