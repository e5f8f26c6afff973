-- ===== src/Vpu/Blocks.antt =====
-- vpu/mxvp/mxvp_mem.c: the block allocator for the processor's DDR. The lock is not modelled.
pub mod Pool
use pcie_host_driver.Prelude.{
  ℕ, zero, suc, ◌+◌, ◌-◌, ◌*◌, ◌/◌, ◌%◌, ◌^◌, Bool, true, false, ◌&&◌, Option, none, some, List, [],
  ◌∷◌, ltb, leb, ◌==◌, if◌then◌else◌, length, get_or, set,
}
use pcie_host_driver.Vpu.FreeList.{Slot}

abbrev pub memory_block_size : ℕ
memory_block_size = 16 * 1024

-- `struct mxvp_mem`. `list` is NULL before the set-up and after the clean-up; a pointer into it is
-- an index.
pub record MemPool : Type 0 where
  pub virtual : ℕ
  pub physical : ℕ
  pub size : ℕ
  pub block : ℕ
  pub list : Option (List Slot)
  pub free : Slot

-- `enum`-less results of the set-up: 0, -ENOMEM, or the loop that runs past the array, which
-- happens where there is no block and `nblocks - 1` wraps.
pub data InitStatus : Type 0 where
  init_ok enomem overrun : InitStatus

-- Entry `index` and the `rounds` after it: each points at the next, the last is NULL.
unfoldable pub link_up : ℕ → ℕ → List Slot
link_up index zero = none ∷ []
link_up index (suc rounds) = some (index + 1) ∷ link_up (index + 1) rounds

-- `allocated` says whether kcalloc finds the memory.
unfoldable pub create_free_list : Bool → MemPool → MemPool × InitStatus
create_free_list false mem = (record mem { list = none }, enomem)
create_free_list true mem = elim (mem.size / mem.block) [
  | zero ↦ (mem, overrun)
  | suc rounds ↦ (record mem { list = some (link_up 0 rounds); free = some 0 }, init_ok)
]

unfoldable pub is_cookie : MemPool → ℕ → Bool
is_cookie mem cookie = leb mem.virtual cookie && ltb cookie (mem.virtual + mem.size)

-- `cookie & (block - 1)` is the remainder, as the block size is a power of two.
unfoldable pub is_cookie_strict : MemPool → ℕ → Bool
is_cookie_strict mem cookie =
    leb mem.virtual cookie && (ltb cookie (mem.virtual + mem.size) && (cookie % mem.block == 0))

-- the object after the memset and the assignments of `mxvp_mem_init`
abbrev pub cleared : ℕ → ℕ → ℕ → MemPool
cleared virtual physical size = record {
  virtual = virtual;
  physical = physical;
  size = size;
  block = memory_block_size;
  list = none;
  free = none;
}

unfoldable pub mem_init : Bool → ℕ → ℕ → ℕ → MemPool × InitStatus
unfolding create_free_list
mem_init allocated virtual physical size =
    create_free_list allocated (cleared virtual physical size)

unfoldable pub mem_cleanup : MemPool → MemPool
mem_cleanup mem = record mem { list = none; free = none }

-- `none` as the cookie is NULL.
unfoldable pub mem_alloc : MemPool → ℕ → MemPool × Option ℕ
mem_alloc mem size = if ltb mem.block size then (mem, none) else elim mem.list [
  | none ↦ (mem, none)
  | some list ↦ elim mem.free [
    | none ↦ (mem, none)
    | some available ↦ (
      record mem { free = get_or list available none },
      some (mem.virtual + available * mem.block),
    )
  ]
]

-- `none` is the write past the list that a cookie in a last, partial block leads to.
unfoldable pub mem_free : MemPool → ℕ → Option MemPool
mem_free mem cookie = elim mem.list [
  | none ↦ some mem
  | some list ↦
      let index = (cookie - mem.virtual) / mem.block in
      if is_cookie_strict mem cookie
      then if ltb index (length list)
        then some (record mem { list = some (set list index mem.free); free = some index })
        else none
      else some mem
]

-- The iomem address of a cookie, or NULL.
unfoldable pub mem_virt : MemPool → ℕ → Option ℕ
unfolding is_cookie
mem_virt mem cookie = if is_cookie mem cookie then some cookie else none

unfoldable pub mem_phys : MemPool → ℕ → ℕ
unfolding is_cookie
mem_phys mem cookie =
    if is_cookie mem cookie then (cookie - mem.virtual + mem.physical) % 2 ^ 64 else 0

unfoldable pub mem_size : MemPool → ℕ → ℕ
mem_size mem cookie = mem.block

-- The walk of `mxvp_mem_usage` along the free list. `none` means that the fuel ran out.
unfoldable pub tally_free : ℕ → List Slot → Slot → ℕ → Option ℕ
tally_free fuel list none tally = some tally
tally_free zero list (some next) tally = none
tally_free (suc fuel) list (some next) tally =
    tally_free fuel list (get_or list next none) ((tally + 1) % 2 ^ 32)

-- The number of free blocks and of all blocks.
unfoldable pub mem_usage : ℕ → MemPool → Option (ℕ × ℕ)
unfolding tally_free
mem_usage fuel mem = elim mem.list [
  | none ↦ some (0, (mem.size / mem.block) % 2 ^ 32)
  | some list ↦ elim (tally_free fuel list mem.free 0) [
    | none ↦ none
    | some free ↦ some (free, (mem.size / mem.block) % 2 ^ 32)
  ]
]
