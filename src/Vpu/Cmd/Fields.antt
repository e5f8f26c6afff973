-- ===== src/Vpu/Cmd/Fields.antt =====
-- The commands that the builders make: well formed, with their operation and their payload.
use pcie_host_driver.Prelude.{
  ℕ, ◌+◌, ◌*◌, ◌%◌, ◌^◌, ◌≤◌, ◌<◌, ◌≡◌, ◌≢◌, refl, ◌∙◌, inl, inr, arith, replicate, ==-false,
}
use pcie_host_driver.Mmio.{Mem, wr_buf, rd32, rd64, wr32, wr64}
use pcie_host_driver.Mmio.Laws.{
  rd32-wr32, rd32-wr32_ne, rd32-wr16_ne, rd32-wr64_ne, rd64-wr64, rd64-wr32_ne,
}
use pcie_host_driver.Vpu.Queue.{roundup}
use pcie_host_driver.Vpu.Bspec.{
  cmd_exe_buffer, cmd_dma_read, cmd_dma_write, cmd_multi_dma_read, cmd_multi_dma_write,
  cmd_mem_fill, cmd_fence,
}
use pcie_host_driver.Vpu.Bspec.Send.{IsCommand}
use pcie_host_driver.Vpu.Cmd.{
  cmd_hdr_version, start_header, header, alloc_exe_buffer, alloc_dma_read, alloc_dma_write,
  alloc_multi_dma_common, alloc_multi_dma_read, alloc_multi_dma_write, alloc_mem_fill, alloc_fence,
}

-- The header at `p` is that of a well-formed command of operation `op`.
pub record IsBuilt (kmem : Mem) (p len op : ℕ) : Type 0 where
  pub length_word : rd32 kmem p ≡ len
  pub op_word : rd32 kmem (p + 12) ≡ op

module _ (kmem : Mem) (p len : ℕ) (small : len + 3 < 2 ^ 32) where
  start_header-length : rd32 (start_header kmem p len) p ≡ roundup len 4
  unfolding start_header
  start_header-length =
      let z : Mem = wr_buf kmem p (replicate len 0) in
      rd32-wr16_ne (wr32 z p (roundup len 4)) (p + 8) cmd_hdr_version p (inr (omega arith))
      ∙ rd32-wr32 z p (roundup len 4)
      ∙ omega arith

  header-IsBuilt : (op : ℕ) → op < 2 ^ 32 → IsBuilt (header kmem p len op) p (roundup len 4) op
  unfolding header
  header-IsBuilt op lt = record {
    length_word =
        rd32-wr32_ne (start_header kmem p len) (p + 12) op p (inr (omega arith))
        ∙ start_header-length;
    op_word = omega (arith, rd32-wr32 (start_header kmem p len) (p + 12) op);
  }

-- A write behind the header keeps it.
IsBuilt-wr32 :
    (k : Mem) (p len op a v : ℕ) → p + 16 ≤ a → IsBuilt k p len op → IsBuilt (wr32 k a v) p len op
IsBuilt-wr32 k p len op a v h b = record {
  length_word = rd32-wr32_ne k a v p (inr (omega arith)) ∙ b.length_word;
  op_word = rd32-wr32_ne k a v (p + 12) (inr (omega arith)) ∙ b.op_word;
}

IsBuilt-wr64 :
    (k : Mem) (p len op a v : ℕ) → p + 16 ≤ a → IsBuilt k p len op → IsBuilt (wr64 k a v) p len op
IsBuilt-wr64 k p len op a v h b = record {
  length_word = rd32-wr64_ne k a v p (inr (omega arith)) ∙ b.length_word;
  op_word = rd32-wr64_ne k a v (p + 12) (inr (omega arith)) ∙ b.op_word;
}

-- What a built command gives to a send.
pub IsBuilt-IsCommand :
    (k : Mem) (p len op : ℕ)
    → 16 ≤ len
    → len % 4 ≡ 0
    → len + 8 ≤ 2 ^ 32
    → IsBuilt k p len op
    → IsCommand k p
IsBuilt-IsCommand k p len op room whole small b = record {
  room = omega (arith, b.length_word);
  whole = omega (arith, b.length_word);
  small = omega (arith, b.length_word);
}

-- The EXE_BUFFER command carries its operation, address and size.
pub alloc_exe_buffer-fields :
    (p : ℕ) (kmem : Mem) (address size : ℕ)
    → p ≢ 0
    → address < 2 ^ 64
    → size < 2 ^ 32
    → let k = alloc_exe_buffer p kmem address size in
      IsBuilt k p 28 cmd_exe_buffer
      × IsCommand k p
      × (rd64 k (p + 16) ≡ address)
      × (rd32 k (p + 24) ≡ size)
unfolding alloc_exe_buffer
alloc_exe_buffer-fields p kmem address size ne a s =
    let h : Mem = header kmem p 28 cmd_exe_buffer in
    let b = IsBuilt-wr32 (wr64 h (p + 16) address) p 28 cmd_exe_buffer (p + 24) size (omega arith) (
      IsBuilt-wr64 h p 28 cmd_exe_buffer (p + 16) address (omega arith)
        (header-IsBuilt kmem p 28 (omega arith) cmd_exe_buffer (omega arith))) in
    rw (==-false p 0 ne) (
      b,
      IsBuilt-IsCommand (wr32 (wr64 h (p + 16) address) (p + 24) size) p 28 cmd_exe_buffer
          (omega arith) refl (omega arith) b,
      rd64-wr32_ne (wr64 h (p + 16) address) (p + 24) size (p + 16) (inr (omega arith))
          ∙ rd64-wr64 h (p + 16) address a,
      omega (arith, rd32-wr32 (wr64 h (p + 16) address) (p + 24) size),
    )

-- The DMA_READ command for up to 2 ^ 27 descriptors has room for the descriptors, whose
-- number it carries.
pub alloc_dma_read-fields :
    (p : ℕ) (kmem : Mem) (ndesc : ℕ)
    → p ≢ 0
    → ndesc ≤ 2 ^ 27
    → let k = alloc_dma_read p kmem ndesc in
      IsBuilt k p (20 + 20 * ndesc) cmd_dma_read × IsCommand k p × (rd32 k (p + 16) ≡ ndesc)
unfolding alloc_dma_read
alloc_dma_read-fields p kmem ndesc ne few =
    let len = 20 + 20 * ndesc in
    let h : Mem = header kmem p len cmd_dma_read in
    let b0 = header-IsBuilt kmem p len (omega arith) cmd_dma_read (omega arith) in
    let same : roundup len 4 ≡ len = omega arith in
    let b = IsBuilt-wr32 h p len cmd_dma_read (p + 16) ndesc (omega arith) (rw same at b0) in
    rw (==-false p 0 ne) (
      b,
      IsBuilt-IsCommand (wr32 h (p + 16) ndesc) p len cmd_dma_read (omega arith) (omega arith)
          (omega arith) b,
      omega (arith, rd32-wr32 h (p + 16) ndesc),
    )

-- The DMA_WRITE command for up to 2 ^ 27 descriptors has room for the descriptors, whose
-- number it carries.
pub alloc_dma_write-fields :
    (p : ℕ) (kmem : Mem) (ndesc : ℕ)
    → p ≢ 0
    → ndesc ≤ 2 ^ 27
    → let k = alloc_dma_write p kmem ndesc in
      IsBuilt k p (20 + 20 * ndesc) cmd_dma_write × IsCommand k p × (rd32 k (p + 16) ≡ ndesc)
unfolding alloc_dma_write
alloc_dma_write-fields p kmem ndesc ne few =
    let len = 20 + 20 * ndesc in
    let h : Mem = header kmem p len cmd_dma_write in
    let b0 = header-IsBuilt kmem p len (omega arith) cmd_dma_write (omega arith) in
    let same : roundup len 4 ≡ len = omega arith in
    let b = IsBuilt-wr32 h p len cmd_dma_write (p + 16) ndesc (omega arith) (rw same at b0) in
    rw (==-false p 0 ne) (
      b,
      IsBuilt-IsCommand (wr32 h (p + 16) ndesc) p len cmd_dma_write (omega arith) (omega arith)
          (omega arith) b,
      omega (arith, rd32-wr32 h (p + 16) ndesc),
    )

module _ (p : ℕ) (kmem : Mem) (buffer ndesc op : ℕ) (a : buffer < 2 ^ 64) (few : ndesc ≤ 2 ^ 27)
    (o : op < 2 ^ 32) where
  abbrev addressed : Mem
  addressed = wr64 (start_header kmem p 28) (p + 16) buffer

  abbrev sized : Mem
  sized = wr32 addressed (p + 24) (20 * ndesc)

  sized-IsBuilt : IsBuilt (wr32 sized (p + 12) op) p 28 op
  sized-IsBuilt = record {
    length_word =
        rd32-wr32_ne sized (p + 12) op p (inr (omega arith))
        ∙ rd32-wr32_ne addressed (p + 24) (20 * ndesc) p (inr (omega arith))
        ∙ rd32-wr64_ne (start_header kmem p 28) (p + 16) buffer p (inr (omega arith))
        ∙ start_header-length kmem p 28 (omega arith);
    op_word = omega (arith, rd32-wr32 sized (p + 12) op);
  }

  sized-fields :
      (rd64 (wr32 sized (p + 12) op) (p + 16) ≡ buffer)
      × (rd32 (wr32 sized (p + 12) op) (p + 24) ≡ 20 * ndesc)
  sized-fields = (
    rd64-wr32_ne sized (p + 12) op (p + 16) (inl (omega arith))
        ∙ rd64-wr32_ne addressed (p + 24) (20 * ndesc) (p + 16) (inr (omega arith))
        ∙ rd64-wr64 (start_header kmem p 28) (p + 16) buffer a,
    omega (
      arith,
      rd32-wr32_ne sized (p + 12) op (p + 24) (inl (omega arith)),
      rd32-wr32 addressed (p + 24) (20 * ndesc),
    ),
  )

-- The MULTI_DMA_READ command carries the address of the descriptors and their size in bytes.
pub alloc_multi_dma_read-fields :
    (p : ℕ) (kmem : Mem) (buffer ndesc : ℕ)
    → p ≢ 0
    → buffer < 2 ^ 64
    → ndesc ≤ 2 ^ 27
    → let k = alloc_multi_dma_read p kmem buffer ndesc in
      IsBuilt k p 28 cmd_multi_dma_read
      × IsCommand k p
      × (rd64 k (p + 16) ≡ buffer)
      × (rd32 k (p + 24) ≡ 20 * ndesc)
unfolding alloc_multi_dma_read alloc_multi_dma_common
alloc_multi_dma_read-fields p kmem buffer ndesc ne a few =
    let b = sized-IsBuilt p kmem buffer ndesc cmd_multi_dma_read a few (omega arith) in
    let (f, g) = sized-fields p kmem buffer ndesc cmd_multi_dma_read a few (omega arith) in
    rw (==-false p 0 ne)
      (b, IsBuilt-IsCommand _ p 28 cmd_multi_dma_read (omega arith) refl (omega arith) b, f, g)

-- The MULTI_DMA_WRITE command carries the address of the descriptors and their size in bytes.
pub alloc_multi_dma_write-fields :
    (p : ℕ) (kmem : Mem) (buffer ndesc : ℕ)
    → p ≢ 0
    → buffer < 2 ^ 64
    → ndesc ≤ 2 ^ 27
    → let k = alloc_multi_dma_write p kmem buffer ndesc in
      IsBuilt k p 28 cmd_multi_dma_write
      × IsCommand k p
      × (rd64 k (p + 16) ≡ buffer)
      × (rd32 k (p + 24) ≡ 20 * ndesc)
unfolding alloc_multi_dma_write alloc_multi_dma_common
alloc_multi_dma_write-fields p kmem buffer ndesc ne a few =
    let b = sized-IsBuilt p kmem buffer ndesc cmd_multi_dma_write a few (omega arith) in
    let (f, g) = sized-fields p kmem buffer ndesc cmd_multi_dma_write a few (omega arith) in
    rw (==-false p 0 ne)
      (b, IsBuilt-IsCommand _ p 28 cmd_multi_dma_write (omega arith) refl (omega arith) b, f, g)

-- The MEM_FILL command carries the address, the size rounded up to whole words, and the pattern.
pub alloc_mem_fill-fields :
    (p : ℕ) (kmem : Mem) (address size word : ℕ)
    → p ≢ 0
    → address < 2 ^ 64
    → size + 3 < 2 ^ 32
    → word < 2 ^ 32
    → let k = alloc_mem_fill p kmem address size word in
      IsBuilt k p 32 cmd_mem_fill
      × IsCommand k p
      × (rd64 k (p + 16) ≡ address)
      × (rd32 k (p + 24) ≡ roundup size 4)
      × (rd32 k (p + 28) ≡ word)
unfolding alloc_mem_fill
alloc_mem_fill-fields p kmem address size word ne a s w =
    let h : Mem = header kmem p 32 cmd_mem_fill in
    let k1 : Mem = wr64 h (p + 16) address in
    let k2 : Mem = wr32 k1 (p + 24) (roundup size 4) in
    let b = IsBuilt-wr32 k2 p 32 cmd_mem_fill (p + 28) word (omega arith) (
      IsBuilt-wr32 k1 p 32 cmd_mem_fill (p + 24) (roundup size 4) (omega arith) (
        IsBuilt-wr64 h p 32 cmd_mem_fill (p + 16) address (omega arith)
          (header-IsBuilt kmem p 32 (omega arith) cmd_mem_fill (omega arith)))) in
    rw (==-false p 0 ne) (
      b,
      IsBuilt-IsCommand (wr32 k2 (p + 28) word) p 32 cmd_mem_fill (omega arith) refl (omega arith)
          b,
      rd64-wr32_ne k2 (p + 28) word (p + 16) (inr (omega arith))
          ∙ rd64-wr32_ne k1 (p + 24) (roundup size 4) (p + 16) (inr (omega arith))
          ∙ rd64-wr64 h (p + 16) address a,
      omega (
        arith,
        rd32-wr32_ne k2 (p + 28) word (p + 24) (inr (omega arith)),
        rd32-wr32 k1 (p + 24) (roundup size 4),
      ),
      omega (arith, rd32-wr32 k2 (p + 28) word),
    )

-- The FENCE command is a header alone.
pub alloc_fence-fields :
    (p : ℕ) (kmem : Mem)
    → p ≢ 0
    → let k = alloc_fence p kmem in IsBuilt k p 16 cmd_fence × IsCommand k p
unfolding alloc_fence
alloc_fence-fields p kmem ne =
    let b = header-IsBuilt kmem p 16 (omega arith) cmd_fence (omega arith) in
    rw (==-false p 0 ne) (
      b,
      IsBuilt-IsCommand (header kmem p 16 cmd_fence) p 16 cmd_fence (omega arith) refl (omega arith)
          b,
    )
