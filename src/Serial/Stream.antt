-- ===== src/Serial/Stream.antt =====
-- serial/mxlk/mxlk_core.c and mxlk_char.c: the file operations of an interface. The locks and the
-- wait queues are not modelled: each operation runs with its interface's lock held.
pub mod Contents
pub mod Turns
pub mod Read
pub mod Filling
pub mod Write
use pcie_host_driver.Prelude.{
  ℕ, zero, suc, ◌+◌, ◌-◌, ◌*◌, ◌/◌, ◌%◌, ◌^◌, min, Bool, true, false, not, Option, none, some, List,
  [], ◌∷◌, ◌++◌, ltb, ◌==◌, if◌then◌else◌, length, take, drop, is_some,
}
use pcie_host_driver.Mmio.{Bytes}
use pcie_host_driver.Serial.Buffers.{
  BufDesc, BufList, size_add, list_get, list_put, pool_alloc, pool_free,
}

-- packets and bytes, as one of the four pairs of `struct mxlk_stats` counts them
pub record Traffic : Type 0 where
  pub pkts : ℕ
  pub bytes : ℕ

-- the part of `struct mxlk` and of its interface that reading uses
pub record Reader : Type 0 where
  pub rx_pool : BufList
  pub read : BufList
  pub partial_read : Option BufDesc
  pub rx_usr : Traffic

-- The loop of `mxlk_core_read` on its `n`-th turn, with the descriptor `bd` in hand. Whether
-- `copy_to_user` succeeds on a turn is an argument, and `out` is what it has copied.
unfoldable pub read_loop :
    ℕ → (ℕ → Bool) → ℕ → Reader → Option BufDesc → ℕ → Bytes → Option (Reader × ℕ × Bytes)
read_loop zero copies n r bd remaining out = none
read_loop (suc fuel) copies n r none remaining out =
    some (record r { partial_read = none }, remaining, out)
read_loop (suc fuel) copies n r (some bd) zero out =
    some (record r { partial_read = some bd }, zero, out)
read_loop (suc fuel) copies n r (some bd) (suc k) out =
    let bcopy = min (suc k) bd.length in
    let out' = out ++ take bcopy (drop bd.data_at bd.bytes) in
    let left = bd.length - bcopy in
    let bd' = record bd { data_at = bd.data_at + bcopy; length = left } in
    let counted = size_add r.rx_usr.bytes bcopy in
    let (next, read') = list_get r.read in
    let done =
      read_loop fuel copies (n + 1)
        (record r {
          rx_pool = pool_free r.rx_pool (some bd');
          read = read';
          rx_usr = record { pkts = size_add r.rx_usr.pkts 1; bytes = counted };
        })
        next (suc k - bcopy) out' in
    let again =
      read_loop fuel copies (n + 1) (record r { rx_usr = record r.rx_usr { bytes = counted } })
        (some bd') (suc k - bcopy) out' in
    if copies n
    then if left == 0 then done else again
    else some (record r { partial_read = some bd }, suc k, out)

-- Every turn but the last two ends a descriptor.
unfoldable pub read_fuel : Reader → ℕ
read_fuel r = 3 + length r.read.chain

-- the descriptor to read from first, of the one that an earlier read left or the interface's first
unfoldable pub hand_of : Reader → Option BufDesc → Option BufDesc × Reader
hand_of r (some bd) = (some bd, r)
hand_of r none = let (first, read') = list_get r.read in (first, record r { read = read' })

unfoldable pub in_hand : Reader → Option BufDesc × Reader
in_hand r = hand_of r r.partial_read

-- What the read leaves, the bytes in the user's buffer, and the count that it returns.
unfoldable pub core_read : (ℕ → Bool) → Reader → ℕ → Option (Reader × Bytes × ℕ)
core_read copies r len =
    let (bd, r') = in_hand r in
    elim (read_loop (read_fuel r) copies 0 r' bd len []) [
      | none ↦ none
      | some e ↦ some (e.0, e.2, len - e.1)
    ]

pub record Writer : Type 0 where
  pub tx_pool : BufList
  pub write : BufList
  pub tx_usr : Traffic

-- `copy_from_user` into the memory of a descriptor
unfoldable pub fill : BufDesc → Bytes → BufDesc
fill bd src = record bd {
  bytes = take bd.data_at bd.bytes ++ (src ++ drop (bd.data_at + length src) bd.bytes);
}

-- how the loop of `mxlk_core_write` ends: chain, pool, counts, and bytes left
abbrev pub Written : Type 0
Written = List BufDesc × BufList × Traffic × Bytes

-- a descriptor whose `next` is the rest of the chain
abbrev pub link_before : BufDesc → Option Written → Option Written
link_before bd none = none
link_before bd (some (chain, pool, t, src)) = some (bd ∷ chain, pool, t, src)

-- The loop of `mxlk_core_write` with the descriptor `bd` in hand: the chain that starts at `bd`, the
-- pool, the counts, and what is left of the user's bytes.
unfoldable pub write_loop :
    ℕ → (ℕ → Bool) → ℕ → ℕ → BufList → Traffic → Option BufDesc → Bytes → Option Written
write_loop zero copies n id pool t bd src = none
write_loop (suc fuel) copies n id pool t none src = some ([], pool, t, src)
write_loop (suc fuel) copies n id pool t (some bd) [] = some (bd ∷ [], pool, t, [])
write_loop (suc fuel) copies n id pool t (some bd) (b ∷ bs) =
    let bcopy = min bd.length (length (b ∷ bs)) in
    let filled = fill bd (take bcopy (b ∷ bs)) in
    let bd' = record filled { length = bcopy; interface = id } in
    let t' : Traffic = record { pkts = size_add t.pkts 1; bytes = size_add t.bytes bcopy } in
    let rest = drop bcopy (b ∷ bs) in
    let (next, pool') = pool_alloc pool in
    let tail = write_loop fuel copies (n + 1) id pool' t' next rest in
    if copies n
    then elim rest [ [] ↦ some (bd' ∷ [], pool, t', []) | c ∷ cs ↦ link_before bd' tail ]
    else some (bd ∷ [], pool, t, b ∷ bs)

unfoldable pub write_fuel : Writer → ℕ
write_fuel w = 2 + length w.tx_pool.chain

-- What the write leaves, whether it starts the transmission, and the count that it returns.
unfoldable pub core_write : (ℕ → Bool) → ℕ → Writer → Bytes → Option (Writer × Bool × ℕ)
core_write copies id w src =
    let (first, pool) = pool_alloc w.tx_pool in
    elim (write_loop (write_fuel w) copies 0 id pool w.tx_usr first src) [
      | none ↦ none
      | some e ↦ some (
        record { tx_pool = e.1; write = (list_put w.write e.0).0; tx_usr = e.2 },
        is_some first,
        length src - length e.3,
      )
    ]

-- `mxlk_core_open`: -EACCES for `none`, else the new `opened`.
unfoldable pub core_open : ℕ → Option ℕ
core_open opened = if not (opened == 0) then none else some 1

unfoldable pub core_close : ℕ → ℕ
core_close opened = if not (opened == 0) then 0 else opened

unfoldable pub read_data_available : Reader → Bool
read_data_available r = if is_some r.partial_read then true else not (r.read.buffers == 0)

unfoldable pub write_buffer_available : BufList → Bool
write_buffer_available tx_pool = not (tx_pool.buffers == 0)

-- the mask of `mxlk_dev_poll`: POLLIN | POLLRDNORM and POLLOUT | POLLWRNORM
unfoldable pub dev_poll : Reader → BufList → Bool × Bool
dev_poll r tx_pool = (read_data_available r, write_buffer_available tx_pool)
