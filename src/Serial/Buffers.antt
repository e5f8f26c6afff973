-- ===== src/Serial/Buffers.antt =====
-- serial/mxlk/mxlk_core.c: buffer descriptors and the lists of them (`struct mxlk_list`).
-- A chain of descriptors linked by `next` is the list of them, and NULL the empty list: a
-- descriptor is on one chain at a time, and the code never goes back from one. The locks are not
-- modelled.
pub mod Pool
use pcie_host_driver.Prelude.{
  ℕ, zero, suc, ◌+◌, ◌-◌, ◌*◌, ◌/◌, ◌%◌, ◌^◌, Bool, true, false, Option, none, some, List, [], ◌∷◌,
  ◌++◌, if◌then◌else◌, replicate,
}
use pcie_host_driver.Mmio.{Bytes}

-- `struct mxlk_buf_desc`: `head` is the address of the memory that holds `bytes`, and `data_at` the
-- distance from there to the data.
pub record BufDesc : Type 0 where
  pub head : ℕ
  pub true_len : ℕ
  pub bytes : Bytes
  pub data_at : ℕ
  pub length : ℕ
  pub interface : ℕ

pub record BufList : Type 0 where
  pub bytes : ℕ
  pub buffers : ℕ
  pub chain : List BufDesc

-- size_t arithmetic
abbrev pub size_add : ℕ → ℕ → ℕ
size_add a b = (a + b) % 2 ^ 64

abbrev pub size_sub : ℕ → ℕ → ℕ
size_sub a b = (a + (2 ^ 64 - b % 2 ^ 64)) % 2 ^ 64

-- the `interface` field of a descriptor that no interface owns: (int) -1
abbrev pub no_interface : ℕ
no_interface = 2 ^ 32 - 1

abbrev pub list_init : BufList
list_init = record { bytes = 0; buffers = 0; chain = [] }

-- Every descriptor is freed; the two counts are left as they are.
unfoldable pub list_cleanup : BufList → BufList
list_cleanup l = record l { chain = [] }

-- the loop that walks the chain that is put
unfoldable pub count_in : ℕ → ℕ → List BufDesc → ℕ × ℕ
count_in bytes buffers [] = (bytes, buffers)
count_in bytes buffers (bd ∷ bds) = count_in (size_add bytes bd.length) (size_add buffers 1) bds

-- 0, or -EINVAL for NULL
pub data PutStatus : Type 0 where
  put_ok put_einval : PutStatus

unfoldable pub list_put : BufList → List BufDesc → BufList × PutStatus
list_put l [] = (l, put_einval)
list_put l (bd ∷ bds) =
    let (bytes, buffers) = count_in l.bytes l.buffers (bd ∷ bds) in
    (record { bytes = bytes; buffers = buffers; chain = l.chain ++ (bd ∷ bds) }, put_ok)

-- `mxlk_list_get`, with the chain that `list->head` starts
unfoldable pub get_from : BufList → List BufDesc → Option BufDesc × BufList
get_from l [] = (none, l)
get_from l (bd ∷ bds) = (
  some bd,
  record { bytes = size_sub l.bytes bd.length; buffers = size_sub l.buffers 1; chain = bds },
)

unfoldable pub list_get : BufList → Option BufDesc × BufList
list_get l = get_from l l.chain

abbrev pub list_info : BufList → ℕ × ℕ
list_info l = (l.bytes, l.buffers)

abbrev pub roundup : ℕ → ℕ → ℕ
roundup n unit = (n + (unit - 1)) / unit * unit

-- The two allocations, of the descriptor and of its memory, are granted or not: `bd_ok` and `head`.
unfoldable pub alloc_bd : Bool → Option ℕ → ℕ → ℕ → Option BufDesc
alloc_bd bd_ok head cache_line length =
    if bd_ok
    then elim head [
      | none ↦ none
      | some h ↦ some (record {
        head = h;
        true_len = length;
        bytes = replicate (roundup length cache_line) 0;
        data_at = 0;
        length = length;
        interface = 0;
      })
    ]
    else none

-- what `mxlk_alloc_rx_bd` and `mxlk_alloc_tx_bd` do to the descriptor they take
unfoldable pub fresh : BufDesc → BufDesc
fresh bd = record bd { data_at = 0; length = bd.true_len; interface = no_interface }

unfoldable pub fresh_of : Option BufDesc → Option BufDesc
fresh_of none = none
fresh_of (some bd) = some (fresh bd)

-- `mxlk_alloc_rx_bd` and `mxlk_alloc_tx_bd`, of the pool they take from
unfoldable pub pool_alloc : BufList → Option BufDesc × BufList
pool_alloc pool = let (bd, pool') = list_get pool in (fresh_of bd, pool')

-- `mxlk_free_rx_bd` and `mxlk_free_tx_bd`, of one descriptor
unfoldable pub pool_free : BufList → Option BufDesc → BufList
pool_free pool bd = elim bd [ none ↦ pool | some b ↦ (list_put pool (b ∷ [])).0 ]
