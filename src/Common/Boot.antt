-- ===== src/Common/Boot.antt =====
-- common/mx_boot.c: transferring a boot image to the device. What the device and the kernel answer is
-- an argument; the configuration space is the list of the writes to it.
pub mod Wait
pub mod Transfers
pub mod Chunks
pub mod Stages
use pcie_host_driver.Prelude.{
  ℕ, zero, suc, ◌+◌, ◌-◌, ◌*◌, ◌^◌, min, Bool, true, false, not, ◌&&◌, ◌||◌, Option, none, some,
  List, [], ◌∷◌, ◌++◌, ltb, ◌==◌, if◌then◌else◌, length, take, drop,
}
use pcie_host_driver.Mmio.{Mem, Bytes, rd32, wr32, wr64}
use pcie_host_driver.Common.Opmode.{Opmode, loader, same_mode, get_opmode}

abbrev pub status_ready : ℕ
status_ready = 0x00000000

abbrev pub status_pending : ℕ
status_pending = 0xFFFFFFFF

abbrev pub status_starting : ℕ
status_starting = 0x55555555

abbrev pub status_dma_done : ℕ
status_dma_done = 0xDDDDDDDD

abbrev pub status_boot : ℕ
status_boot = 0xBBBBBBBB

abbrev pub reg_mf_ready : ℕ
reg_mf_ready = 0x10

abbrev pub reg_mf_length : ℕ
reg_mf_length = 0x14

abbrev pub reg_mf_start : ℕ
reg_mf_start = 0x20

abbrev pub reg_int_enable : ℕ
reg_int_enable = 0x28

abbrev pub reg_int_mask : ℕ
reg_int_mask = 0x2C

-- The writes of `enable_mx_rdma` to the configuration space, each a register and a value.
abbrev pub enable_mx_rdma : List (ℕ × ℕ)
enable_mx_rdma = (0xA6C, 0x80000000) ∷ (0xA70, 0x8) ∷ (0x99C, 0x1) ∷ []

unfoldable pub status_update_int_enable : Mem → Mem
status_update_int_enable mmio = wr32 (wr32 mmio reg_int_enable 1) reg_int_mask (2 ^ 32 - 2)

unfoldable pub status_update_int_disable : Mem → Mem
status_update_int_disable mmio = wr32 mmio reg_int_enable 0

-- 0, -ETIME or -EPROTO
pub data WaitStatus : Type 0 where
  complete etime eproto : WaitStatus

-- The loop of `wait_for_transfer_completion`: how it ends, and on which turn. On its `n`-th turn the
-- device's memory is `dev n`. A counter that is 0 is reported, else it is decremented. `none` means
-- that the fuel ran out.
unfoldable pub wait_loop : ℕ → (ℕ → Mem) → Opmode → ℕ → ℕ → ℕ → Option (WaitStatus × ℕ)
wait_loop zero dev mode n start_tmo pending_tmo = none
wait_loop (suc fuel) dev mode n start_tmo pending_tmo =
    let ready = rd32 (dev n) reg_mf_ready in
    let again = wait_loop fuel dev mode (n + 1) start_tmo pending_tmo in
    let pended = wait_loop fuel dev mode (n + 1) start_tmo (pending_tmo - 1) in
    let started = wait_loop fuel dev mode (n + 1) (start_tmo - 1) pending_tmo in
    if not (same_mode mode (get_opmode (dev n)))
    then some (complete, n)
    else if ready == status_ready
    then again
    else if ready == status_dma_done
    then some (complete, n)
    else if ready == status_pending
    then if pending_tmo == 0 then some (etime, n) else pended
    else if ready == status_starting
    then if start_tmo == 0 then some (etime, n) else started
    else some (eproto, n)

abbrev pub start_tmo_ms : ℕ
start_tmo_ms = 1500

abbrev pub pending_tmo_ms : ℕ
pending_tmo_ms = 100

unfoldable pub wait_for_transfer_completion : ℕ → (ℕ → Mem) → Opmode → Option (WaitStatus × ℕ)
wait_for_transfer_completion fuel dev mode = wait_loop fuel dev mode 0 start_tmo_ms pending_tmo_ms

-- What is answered while one image is transferred: the bus address or a mapping error, and the
-- device's memory on each turn of the wait, which starts from the registers that the host has set.
pub record Transfer : Type 0 where
  pub start : Option ℕ
  pub polls : Mem → ℕ → Mem

-- the registers when the device starts its part of a transfer
unfoldable pub handed_over : Mem → ℕ → ℕ → Mem
handed_over mmio start len =
    wr32 (wr32 (wr64 mmio reg_mf_start start) reg_mf_length len) reg_mf_ready status_pending

abbrev pub is_complete : WaitStatus → Bool
is_complete complete = true
is_complete etime = false
is_complete eproto = false

-- What a transfer comes to: the device's memory when the wait for it is over, where it gets to that, and
-- at the end, and whether it returns 0.
pub record Transferred : Type 0 where
  pub waited : Option Mem
  pub mmio : Mem
  pub ok : Bool

-- `boot_image_transfer`
unfoldable pub boot_image_transfer : ℕ → Transfer → Mem → ℕ → Bool → Option Transferred
boot_image_transfer fuel t mmio len boot_now =
    let mode = get_opmode mmio in
    let ready = rd32 mmio reg_mf_ready in
    let boots = boot_now && same_mode mode loader in
    if not (ready == status_ready) && not (ready == status_dma_done)
    then some (record { waited = none; mmio = mmio; ok = false })
    else elim t.start [
      | none ↦ some (record { waited = none; mmio = mmio; ok = false })
      | some start ↦
          let dev = t.polls (handed_over mmio start len) in
          elim (wait_for_transfer_completion fuel dev mode) [
            | none ↦ none
            | some e ↦
                let after = dev e.1 in
                some (record {
                  waited = some after;
                  mmio = if boots then wr32 after reg_mf_ready status_boot else after;
                  ok = is_complete e.0;
                })
          ]
    ]

abbrev pub max_cont_buffer : ℕ
max_cont_buffer = 4 * 1024 * 1024

-- What is answered for one chunk: the cache and its buffer, what is in the buffer when the copy from
-- the user has failed, and the transfer.
pub record Chunk : Type 0 where
  pub cache_ok : Bool
  pub image_ok : Bool
  pub garbled : Option Bytes
  pub transfer : Transfer

abbrev pub is_nil : Bytes → Bool
is_nil [] = true
is_nil (b ∷ bs) = false

-- the image in the buffer: a failed copy from the user is only reported
unfoldable pub buffered : Bool → Option Bytes → Bytes → Bytes
buffered user garbled chunk = if user then elim garbled [ none ↦ chunk | some g ↦ g ] else chunk

-- one buffer given to `boot_image_transfer`, the device's memory before, and what comes of it
pub record Sent : Type 0 where
  pub image : Bytes
  pub before : Mem
  pub outcome : Transferred

-- the transfers before those that follow
abbrev pub sent_before : Sent → Option (Mem × List Sent × Bool) → Option (Mem × List Sent × Bool)
sent_before s none = none
sent_before s (some (mmio, log, ok)) = some (mmio, s ∷ log, ok)

-- The loop of `mx_boot_load_image` on its `n`-th turn: the device's memory, the transfers that are
-- started, and whether all of them succeed.
unfoldable pub load_chunks :
    ℕ → ℕ → (ℕ → Chunk) → Bool → ℕ → Mem → Bytes → Option (Mem × List Sent × Bool)
load_chunks zero polls env user n mmio src = none
load_chunks (suc fuel) polls env user n mmio [] = some (mmio, [], true)
load_chunks (suc fuel) polls env user n mmio (b ∷ bs) =
    let size = min (length (b ∷ bs)) max_cont_buffer in
    let rest = drop size (b ∷ bs) in
    let boot_now = is_nil rest in
    let image = buffered user (env n).garbled (take size (b ∷ bs)) in
    if not (env n).cache_ok
    then some (mmio, [], false)
    else if not (env n).image_ok
    then some (mmio, [], false)
    else elim (boot_image_transfer polls (env n).transfer mmio size boot_now) [
      | none ↦ none
      | some e ↦
          let sent : Sent = record { image = image; before = mmio; outcome = e } in
          let next = load_chunks fuel polls env user (n + 1) e.mmio rest in
          if e.ok then sent_before sent next else some (e.mmio, sent ∷ [], false)
    ]

-- `mx_boot_load_image` on an image that needs no second stage, and on one that does; the second-stage
-- loader is the array `bl` of mx_second_stage_bl_image.h, which is itself short enough. `false` for -1,
-- `true` for the length.
unfoldable pub load_image :
    ℕ → ℕ → (ℕ → Chunk) → (ℕ → Chunk) → Bytes → Bool → Mem → Bytes → Option (Mem × List Sent × Bool)
load_image fuel polls env bl_env bl user mmio src =
    let direct = load_chunks fuel polls env user 0 mmio src in
    if ltb max_cont_buffer (length src)
    then elim (load_chunks fuel polls bl_env false 0 mmio bl) [
      | none ↦ none
      | some e ↦
          let staged = load_chunks fuel polls env user 0 e.0 src in
          if e.2
          then if same_mode (get_opmode e.0) loader then staged else some (e.0, [], false)
          else some (e.0, [], false)
    ]
    else direct
