-- ===== src/Vpu/Queue.antt =====
-- vpu/mxvp/mxvp_queue.c: a ring of variable-length elements in the device's memory, between the
-- host and the device. The lock is not modelled: each operation holds it from start to end.
pub mod Seg
pub mod Enqueue
pub mod Fifo
pub mod Room
pub mod Bounds
pub mod Pull
use pcie_host_driver.Prelude.{
  ℕ, zero, suc, ◌+◌, ◌-◌, ◌*◌, ◌/◌, ◌%◌, ◌^◌, Bool, true, false, Option, none, some, ltb, leb, ◌==◌,
  if◌then◌else◌,
}
use pcie_host_driver.Mmio.{Mem, Bytes, rd_buf, wr_buf, rd32, wr32}

-- offsets within the control structure
abbrev pub qcontrol_start : ℕ
qcontrol_start = 0x00

abbrev pub qcontrol_size : ℕ
qcontrol_size = 0x04

abbrev pub qcontrol_head : ℕ
qcontrol_head = 0x08

abbrev pub qcontrol_tail : ℕ
qcontrol_tail = 0x0C

abbrev pub queue_wrap_marker : ℕ
queue_wrap_marker = 2 ^ 32 - 1

abbrev pub queue_alignment : ℕ
queue_alignment = 4

-- the kernel's roundup
abbrev pub roundup : ℕ → ℕ → ℕ
roundup x y = (x + (y - 1)) / y * y

-- `struct mxvp_queue`: the addresses of the control structure and of the ring, and its size.
pub record Queue : Type 0 where
  pub control : ℕ
  pub memory : ℕ
  pub size : ℕ

abbrev pub diff : ℕ → ℕ → ℕ
diff a b = if ltb b a then a - b else b - a

abbrev pub head_of : Mem → Queue → ℕ
head_of m q = rd32 m (q.control + qcontrol_head)

abbrev pub tail_of : Mem → Queue → ℕ
tail_of m q = rd32 m (q.control + qcontrol_tail)

unfoldable pub is_empty : Mem → Queue → Bool
is_empty m q = tail_of m q == head_of m q

-- The accessors of mxvp_mmio.h take an `int` offset: from 2^31 on a u32 given to them is negative.
unfoldable pub int_at : ℕ → ℕ → ℕ
int_at base offset =
    if ltb offset (2 ^ 31) then base + offset else (base + offset + (2 ^ 64 - 2 ^ 32)) % 2 ^ 64

-- `element` is the memory that the caller's pointer leads to.
unfoldable pub enqueue : Mem → Queue → ℕ → Mem → ℕ → Mem
enqueue m q tail element length =
    let m' = wr_buf m (int_at q.memory tail) (rd_buf element 0 length) in
    wr32 m' (q.control + qcontrol_tail) ((tail + length) % 2 ^ 32)

unfoldable pub dequeue : Mem → Queue → ℕ → ℕ → Mem × Bytes
dequeue m q head length = (
  wr32 m (q.control + qcontrol_head) ((head + length) % 2 ^ 32),
  rd_buf m (int_at q.memory head) length,
)

unfoldable pub queue_init : Mem → ℕ → ℕ → Queue
queue_init m base offset = record {
  control = base + offset;
  memory = base + rd32 m (base + offset + qcontrol_start);
  size = rd32 m (base + offset + qcontrol_size);
}

unfoldable pub queue_reset : Mem → Queue → Mem
queue_reset m q = wr32 (wr32 m (q.control + qcontrol_tail) 0) (q.control + qcontrol_head) 0

-- The result of a push: 0, or -ENOSPC.
pub data PushStatus : Type 0 where
  pushed enospc : PushStatus

-- `length` is a size_t; `space_req` and the length that `enqueue` takes are u32.
unfoldable pub space_req : ℕ → ℕ
space_req length = (length % 2 ^ 32 + 4) % 2 ^ 32

unfoldable pub queue_push_rounded : Mem → Queue → Mem → ℕ → Mem × PushStatus
queue_push_rounded m q element length =
    let head = head_of m q in
    let tail = tail_of m q in
    if leb head tail
    then if ltb (space_req length) (diff tail q.size)
      then (enqueue m q tail element (length % 2 ^ 32), pushed)
      else if ltb (space_req length) head
      then (
        enqueue (wr32 m (int_at q.memory tail) queue_wrap_marker) q 0 element (length % 2 ^ 32),
        pushed,
      )
      else (m, enospc)
    else if ltb (space_req length) (diff head tail)
    then (enqueue m q tail element (length % 2 ^ 32), pushed)
    else (m, enospc)

unfoldable pub queue_push : Mem → Queue → Mem → ℕ → Mem × PushStatus
unfolding queue_push_rounded
queue_push m q element length =
    queue_push_rounded m q element (roundup length queue_alignment % 2 ^ 64)

-- `alloc` says whether kmalloc finds room for that many bytes. The jumps back to `retry` take
-- fuel, and `none` means that it ran out: with markers only in the ring the loop never ends.
unfoldable pub queue_pull : ℕ → (ℕ → Bool) → Mem → Queue → Option (Mem × Option Bytes)
queue_pull zero alloc m q = none
queue_pull (suc fuel) alloc m q =
    let again = queue_pull fuel alloc (wr32 m (q.control + qcontrol_head) 0) q in
    let head = head_of m q in
    let length = rd32 m (int_at q.memory head) in
    if is_empty m q
    then some (m, none)
    else if length == queue_wrap_marker
    then again
    else if alloc length
    then (let (m', element) = dequeue m q head length in some (m', some element))
    else some (m, none)

unfoldable pub queue_is_empty : Mem → Queue → Bool
unfolding is_empty
queue_is_empty m q = is_empty m q
