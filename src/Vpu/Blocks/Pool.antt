-- ===== src/Vpu/Blocks/Pool.antt =====
-- The pool of mxvp_mem.c as the sequence of its free blocks.
use pcie_host_driver.Prelude.{
  ℕ, zero, suc, ◌+◌, ◌*◌, ◌/◌, ◌%◌, ◌^◌, ◌≤◌, ◌<◌, ◌≡◌, refl, sym, ap, ◌∙◌, true, none, some, List,
  [], ◌∷◌, arith, length, get_or, set, length-set, get_or-set_self, get_or-set_ne, set-get_or,
}
use pcie_host_driver.Vpu.FreeList.{
  Slot, NotIn, Chain, IsFree, IsFree-take, IsFree-put, range_from, IsFree-range_from,
}
use pcie_host_driver.Vpu.Blocks.{
  MemPool, memory_block_size, init_ok, link_up, create_free_list, cleared, is_cookie,
  is_cookie_strict, mem_init, mem_alloc, mem_free, mem_phys, tally_free, mem_usage,
}

-- The free blocks of the pool are `is`, in the order in which they will be handed out.
pub record IsPool (mem : MemPool) (list : List Slot) (is : List ℕ) : Type 0 where
  pub ready : mem.list ≡ some list
  pub whole : length list ≡ mem.size / memory_block_size
  pub block : mem.block ≡ memory_block_size
  pub free : IsFree (length list) (λ i. get_or list i none) mem.free is

length-link_up : (i k : ℕ) → length (link_up i k) ≡ suc k
unfolding link_up
length-link_up i zero = refl
length-link_up i (suc k) = ap suc (length-link_up (i + 1) k)

link_up-link : (i k j : ℕ) → j < k → get_or (link_up i k) j none ≡ some (i + suc j)
unfolding link_up
link_up-link i zero j h = absurd (omega arith)
link_up-link i (suc k) zero h = refl
link_up-link i (suc k) (suc j) h = link_up-link (i + 1) k j (omega arith) ∙ ap some (omega arith)

link_up-end : (i k : ℕ) → get_or (link_up i k) k none ≡ none
unfolding link_up
link_up-end i zero = refl
link_up-end i (suc k) = link_up-end (i + 1) k

-- The set-up on a count of blocks that is known not to be 0.
create_free_list-suc :
    (mem : MemPool) (k : ℕ)
    → mem.size / mem.block ≡ suc k
    → create_free_list true mem ≡ (record mem { list = some (link_up 0 k); free = some 0 }, init_ok)
unfolding create_free_list
create_free_list-suc mem k e = rw (e, create_free_list)

-- The set-up of a memory of `k + 1` blocks leaves all its blocks free, in order.
pub mem_init-IsPool :
    (virtual physical size k : ℕ)
    → size / memory_block_size ≡ suc k
    → let (mem, s) = mem_init true virtual physical size in
      (s ≡ init_ok) × IsPool mem (link_up 0 k) (range_from 0 (suc k))
unfolding mem_init
mem_init-IsPool virtual physical size k e =
    rw (create_free_list-suc (cleared virtual physical size) k e) (
      refl,
      record {
        ready = refl;
        whole = length-link_up 0 k ∙ sym e;
        block = refl;
        free = rw (length-link_up 0 k) (
            IsFree-range_from (λ i. get_or (link_up 0 k) i none) k
              (λ j h. link_up-link 0 k j h ∙ ap some (omega arith)) (link_up-end 0 k));
      },
    )

module _ (mem : MemPool) (list : List Slot) where
  mem_alloc-some :
      (size i : ℕ)
      → size ≤ memory_block_size
      → mem.block ≡ memory_block_size
      → mem.list ≡ some list
      → mem.free ≡ some i
      → mem_alloc mem size
        ≡ (record mem { free = get_or list i none }, some (mem.virtual + i * memory_block_size))
  unfolding mem_alloc
  mem_alloc-some size i small block ready first = ground arith

  mem_free-some :
      (i : ℕ)
      → mem.virtual % memory_block_size ≡ 0
      → mem.block ≡ memory_block_size
      → mem.list ≡ some list
      → length list ≡ mem.size / memory_block_size
      → i < length list
      → mem_free mem (mem.virtual + i * memory_block_size)
        ≡ some (record mem { list = some (set list i mem.free); free = some i })
  unfolding mem_free is_cookie_strict
  mem_free-some i aligned block ready whole inside = ground arith

  -- An allocation of at most a block takes the first free block, which lies within the memory.
  pub mem_alloc-IsPool :
      (size i : ℕ) (is : List ℕ)
      → size ≤ memory_block_size
      → IsPool mem list (i ∷ is)
      → let (mem', cookie) = mem_alloc mem size in
        (cookie ≡ some (mem.virtual + i * memory_block_size))
        × (i * memory_block_size + memory_block_size ≤ mem.size)
        × IsPool mem' list is
  mem_alloc-IsPool size i is small p =
      rw (mem_alloc-some size i small p.block p.ready p.free.chain.0) (
        refl,
        omega (arith, p.whole, p.free.below.0),
        record {
          ready = p.ready;
          whole = p.whole;
          block = p.block;
          free = IsFree-take (length list) (λ j. get_or list j none) mem.free i is p.free;
        },
      )

  -- A block that is not free becomes the first free block.
  pub mem_free-IsPool :
      (i : ℕ) (is : List ℕ)
      → mem.virtual % memory_block_size ≡ 0
      → IsPool mem list is
      → i < length list
      → NotIn i is
      → (mem' : MemPool) × (mem_free mem (mem.virtual + i * memory_block_size) ≡ some mem')
        × IsPool mem' (set list i mem.free) (i ∷ is)
  mem_free-IsPool i is aligned p inside out = (
    record mem { list = some (set list i mem.free); free = some i },
    mem_free-some i aligned p.block p.ready p.whole inside,
    record {
      ready = refl;
      whole = length-set list i mem.free ∙ p.whole;
      block = p.block;
      free = rw (length-set list i mem.free) (
          IsFree-put (length list) (λ j. get_or list j none)
            (λ j. get_or (set list i mem.free) j none) mem.free i is
            (λ j ne. get_or-set_ne list i j mem.free none (λ e. ne (sym e)))
            (get_or-set_self list i mem.free none inside) inside out p.free);
    },
  )

-- Freeing a block just allocated restores the pool exactly.
pub mem_free-mem_alloc :
    (mem : MemPool) (list : List Slot) (size i : ℕ) (is : List ℕ)
    → size ≤ memory_block_size
    → mem.virtual % memory_block_size ≡ 0
    → IsPool mem list (i ∷ is)
    → let (mem', cookie) = mem_alloc mem size in
      (cookie ≡ some (mem.virtual + i * memory_block_size))
      × (mem_free mem' (mem.virtual + i * memory_block_size) ≡ some mem)
mem_free-mem_alloc mem list size i is small aligned p =
    rw (mem_alloc-some mem list size i small p.block p.ready p.free.chain.0) (
      refl,
      mem_free-some (record mem { free = get_or list i none }) list i aligned p.block p.ready
            p.whole p.free.below.0
          ∙ ground (arith, set-get_or list i none, p.ready, p.free.chain.0),
    )

-- The processor's address of an allocated block lies within the memory at its physical base.
pub mem_phys-block :
    (mem : MemPool) (i : ℕ)
    → i * memory_block_size + memory_block_size ≤ mem.size
    → mem.physical + mem.size < 2 ^ 64
    → mem_phys mem (mem.virtual + i * memory_block_size) ≡ mem.physical + i * memory_block_size
unfolding mem_phys is_cookie
mem_phys-block mem i inside small = ground arith

-- The walk along the free list counts the free blocks.
tally_free-Chain :
    (list : List Slot) (p : Slot) (is : List ℕ) (tally fuel : ℕ)
    → Chain (λ i. get_or list i none) p is
    → length is ≤ fuel
    → tally + length is < 2 ^ 32
    → tally_free fuel list p tally ≡ some (tally + length is)
unfolding tally_free
tally_free-Chain list p [] tally fuel c enough small = rw c (ap some (omega arith))
tally_free-Chain list p (i ∷ is) tally zero c enough small = absurd (omega arith)
tally_free-Chain list p (i ∷ is) tally (suc fuel) c enough small =
    let e : (tally + 1) % 2 ^ 32 ≡ tally + 1 = omega arith in
    rw c.0 (
      ap (tally_free fuel list (get_or list i none)) e
      ∙ tally_free-Chain list (get_or list i none) is (tally + 1) fuel c.1 (omega arith)
          (omega arith)
      ∙ ap some (omega arith))

-- `mxvp_mem_usage` ends, and reports the number of free blocks and of all blocks.
pub mem_usage-IsPool :
    (mem : MemPool) (list : List Slot) (is : List ℕ) (fuel : ℕ)
    → IsPool mem list is
    → length is ≤ fuel
    → length is < 2 ^ 32
    → mem.size / memory_block_size < 2 ^ 32
    → mem_usage fuel mem ≡ some (length is, mem.size / memory_block_size)
unfolding mem_usage
mem_usage-IsPool mem list is fuel p enough few small =
    ground (arith, tally_free-Chain list mem.free is 0 fuel p.free.chain, p.ready, p.block)
