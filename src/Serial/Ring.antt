-- ===== src/Serial/Ring.antt =====
-- serial/mxlk/mxlk_core.c: the rings of transfer descriptors that the host and the device share, and
-- the handler that moves received buffers out of them. Addresses in the device's memory are
-- distances from `mmio`. The device's memory does not change while a handler runs.
pub mod Places
pub mod Arrivals
pub mod Refilled
pub mod Receive
pub mod Turns
pub mod Rx
use pcie_host_driver.Prelude.{
  ℕ, zero, suc, ◌+◌, ◌-◌, ◌*◌, ◌%◌, ◌^◌, Bool, true, false, not, ◌||◌, Option, none, some, List, [],
  ◌∷◌, ◌++◌, ltb, ◌==◌, if◌then◌else◌, get_or, set,
}
use pcie_host_driver.Mmio.{Mem, rd16, rd32, rd64, wr16, wr32, wr64}
use pcie_host_driver.Serial.Buffers.{
  BufDesc, BufList, size_add, list_get, list_put, pool_alloc, pool_free,
}
use pcie_host_driver.Serial.Stream.{Traffic}

-- `struct mxlk_pipe`
pub record Pipe : Type 0 where
  pub old : ℕ
  pub ndesc : ℕ
  pub head : ℕ
  pub tail : ℕ
  pub tdr : ℕ

-- `struct mxlk_dma_desc`
pub record DmaDesc : Type 0 where
  pub bd : Option BufDesc
  pub phys : ℕ
  pub length : ℕ

-- a slot of a ring that kzalloc has just made
abbrev pub empty_slot : DmaDesc
empty_slot = record { bd = none; phys = 0; length = 0 }

-- The part of `struct mxlk` that the handlers use, with the one interface's list `read`.
pub record Mxlk : Type 0 where
  pub mmio : Mem
  pub tx : Pipe
  pub tx_ddr : List DmaDesc
  pub rx : Pipe
  pub rx_ddr : List DmaDesc
  pub write : BufList
  pub rx_pool : BufList
  pub tx_pool : BufList
  pub read : BufList
  pub tx_krn : Traffic
  pub rx_krn : Traffic
  pub rx_event_runs : ℕ
  pub tx_event_runs : ℕ

-- What a handler asks for: the doorbell, another run of the receive handler, and waking writers.
pub data Request : Type 0 where
  send_doorbell start_rx wake_writers : Request

-- the fields of `struct mxlk_transfer_desc`, 16 bytes long
abbrev pub td_size : ℕ
td_size = 16

abbrev pub td_at : ℕ → ℕ → ℕ
td_at tdr i = tdr + i * td_size

unfoldable pub set_td_address : Mem → ℕ → ℕ → Mem
set_td_address m td v = wr64 m td v

unfoldable pub get_td_address : Mem → ℕ → ℕ
get_td_address m td = rd64 m td

unfoldable pub set_td_length : Mem → ℕ → ℕ → Mem
set_td_length m td v = wr32 m (td + 8) v

unfoldable pub get_td_length : Mem → ℕ → ℕ
get_td_length m td = rd32 m (td + 8)

unfoldable pub set_td_status : Mem → ℕ → ℕ → Mem
set_td_status m td v = wr16 m (td + 12) v

unfoldable pub get_td_status : Mem → ℕ → ℕ
get_td_status m td = rd16 m (td + 12)

unfoldable pub set_td_interface : Mem → ℕ → ℕ → Mem
set_td_interface m td v = wr16 m (td + 14) v

unfoldable pub get_td_interface : Mem → ℕ → ℕ
get_td_interface m td = rd16 m (td + 14)

-- `mxlk_get_tdr_head` and the others, of the register's address
abbrev pub get_tdr : Mem → ℕ → ℕ
get_tdr m a = rd32 m a

abbrev pub set_tdr : Mem → ℕ → ℕ → Mem
set_tdr m a v = wr32 m a v

abbrev pub desc_status_success : ℕ
desc_status_success = 0

abbrev pub desc_status_error : ℕ
desc_status_error = 2 ^ 16 - 1

abbrev pub num_interfaces : ℕ
num_interfaces = 1

unfoldable pub circular_inc : ℕ → ℕ → ℕ
circular_inc v max = (v + 1) % 2 ^ 32 % max

-- INVALID: what a device that is down reads as
abbrev pub is_invalid : ℕ → Bool
is_invalid v = v == 0xFFFFFFFF

-- `dma_map_single` and `dma_mapping_error`: the bus address of a descriptor's data, and whether it is
-- an error
abbrev pub Dma : Type 0
Dma = BufDesc → ℕ × Bool

unfoldable pub map_dma : Dma → BufDesc → DmaDesc × Bool
map_dma dma bd =
    let (phys, failed) = dma bd in
    (record { bd = some bd; phys = phys; length = bd.length }, failed)

-- Where the descriptor of a finished transfer goes; `none` for a read through NULL.
unfoldable pub rx_deliver : ℕ → ℕ → ℕ → BufList → Mxlk → Option BufDesc → Option Mxlk
rx_deliver status interface length pool m bd =
    if status == desc_status_success
    then elim bd [
      | none ↦ none
      | some b ↦
          let b' : BufDesc = record b { interface = interface; length = length } in
          if ltb interface num_interfaces
          then some (record m {
            rx_pool = pool;
            read = (list_put m.read (b' ∷ [])).0;
            rx_krn = record {
              pkts = size_add m.rx_krn.pkts 1;
              bytes = size_add m.rx_krn.bytes length;
            };
          })
          else some (record m { rx_pool = pool_free pool (some b') })
    ]
    else some (record m { rx_pool = pool_free pool bd })

-- The slot `head` is given the descriptor `b`, and its transfer descriptor made ready.
unfoldable pub rx_refill : Dma → ℕ → BufDesc → Mxlk → Mxlk
rx_refill dma head b m =
    let td = td_at m.rx.tdr head in
    let dd = (map_dma dma b).0 in
    record m {
      rx_ddr = set m.rx_ddr head dd;
      mmio = set_td_length (set_td_address m.mmio td dd.phys) td dd.length;
    }

-- One turn of the loop with the replacement `b` taken from the pool.
unfoldable pub rx_turn : Dma → ℕ → BufDesc → BufList → Mxlk → Option Mxlk
rx_turn dma head b pool m =
    let td = td_at m.rx.tdr head in
    elim (rx_deliver (get_td_status m.mmio td) (get_td_interface m.mmio td)
      (get_td_length m.mmio td) pool m (get_or m.rx_ddr head empty_slot).bd) [
        | none ↦ none
        | some m' ↦ some (rx_refill dma head b m')
      ]

-- The loop: what it leaves, where it stops, and whether it stops for want of a descriptor.
unfoldable pub rx_loop : ℕ → Dma → ℕ → ℕ → Mxlk → Option (Mxlk × ℕ × Bool)
rx_loop zero dma head tail m = none
rx_loop (suc fuel) dma head tail m =
    let (replacement, pool) = pool_alloc m.rx_pool in
    if head == tail then some (m, head, false) else elim replacement [
      | none ↦ some (m, head, true)
      | some b ↦ elim (rx_turn dma head b pool m) [
        | none ↦ none
        | some m' ↦ rx_loop fuel dma (circular_inc head m.rx.ndesc) tail m'
      ]
    ]

-- The part of the handler behind the loop.
unfoldable pub rx_publish : Mxlk → ℕ → Bool → Mxlk × List Request
rx_publish m head restart =
    let again = if restart then start_rx ∷ [] else [] in
    if get_tdr m.mmio m.rx.head == head
    then (m, again)
    else (record m { mmio = set_tdr m.mmio m.rx.head head }, send_doorbell ∷ again)

-- Each turn moves the head on by one, and the tail is one of the ring's places.
unfoldable pub rx_fuel : Mxlk → ℕ
rx_fuel m = suc m.rx.ndesc

unfoldable pub rx_event_handler : Dma → Mxlk → Option (Mxlk × List Request)
rx_event_handler dma m =
    let m' : Mxlk = record m { rx_event_runs = size_add m.rx_event_runs 1 } in
    let tail = get_tdr m.mmio m.rx.tail in
    let head = get_tdr m.mmio m.rx.head in
    if is_invalid head || is_invalid tail
    then some (m', [])
    else elim (rx_loop (rx_fuel m) dma head tail m') [
      | none ↦ none
      | some e ↦ some (rx_publish e.0 e.1 e.2)
    ]
