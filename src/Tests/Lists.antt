-- ===== src/Tests/Lists.antt =====
-- The free lists of the processor's memory and of the commands in flight, and an async command.
use pcie_host_driver.Prelude.{
  ℕ, ◌+◌, ◌*◌, ◌≤◌, ◌≡◌, ◌≢◌, refl, false, none, some, List, [], ◌∷◌, arith, length, ◌==◌,
  if◌then◌else◌,
}
use pcie_host_driver.Vpu.FreeList.{Slot}
use pcie_host_driver.Vpu.Blocks.{MemPool, memory_block_size, mem_alloc, mem_free}
use pcie_host_driver.Vpu.Blocks.Pool.{IsPool, mem_alloc-IsPool, mem_free-IsPool, mem_free-mem_alloc}
use pcie_host_driver.Vpu.CmdList.{
  Entry, CmdList, Reply, Call, cmd_list_add, cmd_list_remove, reply_to_command, cmd_list_flush,
  id_to_position,
}
use pcie_host_driver.Vpu.CmdList.Entries.{
  entry_at, Vacant, cmd_list_add-Vacant, cmd_list_remove-Vacant, reply_to_command-Vacant,
}
use pcie_host_driver.Vpu.CmdList.Flush.{follow, cmd_list_flush-cycle}
use pcie_host_driver.Vpu.Async.{AsyncState, async_ok, send_async}
use pcie_host_driver.Vpu.Async.Wait.{Answered, send_async-Answered}

-- a memory of two blocks, both free
abbrev two_blocks : MemPool
two_blocks = record {
  virtual = 0;
  physical = 0x80000000;
  size = 2 * memory_block_size;
  block = memory_block_size;
  list = some (some 1 ∷ none ∷ []);
  free = some 0;
}

two_blocks-IsPool : IsPool two_blocks (some 1 ∷ none ∷ []) (0 ∷ 1 ∷ [])
two_blocks-IsPool = record {
  ready = refl;
  whole = refl;
  block = refl;
  free = record {
    chain = (refl, (refl, refl));
    distinct = ((omega arith, tt), (tt, tt));
    below = (omega arith, (omega arith, tt));
  };
}

mem_alloc_example :
    let (mem', cookie) = mem_alloc two_blocks 64 in
    (cookie ≡ some (0 + 0 * memory_block_size))
    × (0 * memory_block_size + memory_block_size ≤ 2 * memory_block_size)
    × IsPool mem' (some 1 ∷ none ∷ []) (1 ∷ [])
mem_alloc_example =
    mem_alloc-IsPool two_blocks (some 1 ∷ none ∷ []) 64 0 (1 ∷ []) (omega arith) two_blocks-IsPool

-- the memory with block 0 in use
abbrev one_block : MemPool
one_block = record two_blocks { free = some 1 }

one_block-IsPool : IsPool one_block (some 1 ∷ none ∷ []) (1 ∷ [])
one_block-IsPool = record {
  ready = refl;
  whole = refl;
  block = refl;
  free = record { chain = (refl, refl); distinct = (tt, tt); below = (omega arith, tt) };
}

mem_free_example :
    (mem' : MemPool) × (mem_free one_block (0 + 0 * memory_block_size) ≡ some mem')
    × IsPool mem' (some 1 ∷ none ∷ []) (0 ∷ 1 ∷ [])
mem_free_example =
    mem_free-IsPool one_block (some 1 ∷ none ∷ []) 0 (1 ∷ []) refl one_block-IsPool (omega arith)
      (omega arith, tt)

mem_free_alloc_example :
    let (mem', cookie) = mem_alloc two_blocks 64 in
    (cookie ≡ some (0 + 0 * memory_block_size))
    × (mem_free mem' (0 + 0 * memory_block_size) ≡ some two_blocks)
mem_free_alloc_example =
    mem_free-mem_alloc two_blocks (some 1 ∷ none ∷ []) 64 0 (1 ∷ []) (omega arith) refl
      two_blocks-IsPool

abbrev entry : Slot → ℕ → Entry
entry next command = record { next = next; command = command; callback = 0; arg = 0 }

-- position 0 in use by the command at 100 with the callback 7, position 1 vacant
abbrev one_vacant : CmdList
one_vacant = record {
  base = record { next = none; command = 100; callback = 7; arg = 9 } ∷ entry none 0 ∷ [];
  free = some 1;
}

one_vacant-Vacant : Vacant one_vacant (1 ∷ [])
one_vacant-Vacant = record { chain = (refl, refl); distinct = (tt, tt); below = (omega arith, tt) }

add_example :
    let (list', position) = cmd_list_add one_vacant 200 8 6 in
    (position ≡ some 1)
    × ((entry_at list' 1).command ≡ 200)
    × ((entry_at list' 1).callback ≡ 8)
    × ((entry_at list' 1).arg ≡ 6)
    × ((j : ℕ) → j ≢ 1 → entry_at list' j ≡ entry_at one_vacant j)
    × (length list'.base ≡ 2)
    × Vacant list' []
add_example = cmd_list_add-Vacant one_vacant 200 8 6 1 [] one_vacant-Vacant

remove_example :
    let (list', removed) = cmd_list_remove one_vacant 0 in
    (removed ≡ some (record (entry_at one_vacant 0) { next = none }))
    × ((j : ℕ) → j ≢ 0 → entry_at list' j ≡ entry_at one_vacant j)
    × (length list'.base ≡ 2)
    × Vacant list' (0 ∷ 1 ∷ [])
remove_example =
    cmd_list_remove-Vacant one_vacant 0 (1 ∷ []) (omega arith) (omega arith, tt) one_vacant-Vacant

abbrev reply_0 : Reply
reply_0 = record { length_field = 16; id = 0; version = 1; status = 0 }

reply_example :
    let (list', calls) = reply_to_command one_vacant reply_0 in
    (calls ≡ record { callback = 7; command = 100; reply = reply_0; arg = 9 } ∷ [])
    × Vacant list' (0 ∷ 1 ∷ [])
unfolding id_to_position
reply_example =
    reply_to_command-Vacant one_vacant reply_0 (1 ∷ []) (omega arith) (omega arith, tt)
      (omega arith) one_vacant-Vacant

cycle_example :
    let list' = (cmd_list_flush (λ a. 0) 4 one_vacant).0 in follow list'.base 5 list'.free ≢ none
cycle_example = cmd_list_flush-cycle (λ a. 0) 4 one_vacant 1 5 refl (omega arith)

-- nothing pending
abbrev idle : AsyncState
idle = record {
  mmio = λ a. 0;
  kmem = λ a. 0;
  cmd_list = one_vacant;
  dma_list = one_vacant;
  pending = λ c. false;
  doorbells = 0;
}

-- a reset of the command queue, cleared on the second read and done on the first
async_example :
    (s' : AsyncState) × (calls : List Call) × (send_async 3
        (λ i. if i == 0 then 4 else 0)
        (λ i. 4)
        idle
        2
        0
      ≡ some (s', async_ok, calls))
    × Answered 2 idle s' calls
async_example =
    send_async-Answered 3 1 0 2 0 (λ i. if i == 0 then 4 else 0) (λ i. 4) idle (omega arith) refl
      (omega arith) refl (omega arith) refl
