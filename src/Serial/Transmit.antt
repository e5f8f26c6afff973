-- ===== src/Serial/Transmit.antt =====
-- serial/mxlk/mxlk_core.c: the transmit handler, which takes back the descriptors that the device has
-- sent and gives it those that are queued.
pub mod Slots
pub mod Described
pub mod Reclaim
pub mod Submit
pub mod Tx
use pcie_host_driver.Prelude.{
  ℕ, zero, suc, ◌==◌, Bool, not, ◌||◌, Option, none, some, List, [], ◌∷◌, if◌then◌else◌, get_or,
  set,
}
use pcie_host_driver.Serial.Buffers.{BufDesc, size_add, list_get, pool_free}
use pcie_host_driver.Serial.Ring.{
  DmaDesc, empty_slot, Mxlk, Request, send_doorbell, wake_writers, td_at, set_td_address,
  set_td_length, set_td_status, set_td_interface, get_tdr, set_tdr, desc_status_error, circular_inc,
  is_invalid, Dma, map_dma,
}

-- The part of the transmit handler that takes back what the device has sent, from `old` to `head`;
-- `none` for a read through NULL.
unfoldable pub reclaim_loop : ℕ → ℕ → ℕ → Mxlk → Option Mxlk
reclaim_loop zero old head m = none
reclaim_loop (suc fuel) old head m =
    let slot = get_or m.tx_ddr old empty_slot in
    if old == head then some (record m { tx = record m.tx { old = old } }) else elim slot.bd [
      | none ↦ none
      | some bd ↦ reclaim_loop fuel (circular_inc old m.tx.ndesc) head (record m {
        tx_pool = pool_free m.tx_pool (some bd);
        tx_ddr = set m.tx_ddr old (record slot { bd = none });
        tx_krn = record {
          pkts = size_add m.tx_krn.pkts 1;
          bytes = size_add m.tx_krn.bytes bd.length;
        };
      })
    ]

-- The slot `tail` is given the descriptor, and its transfer descriptor is made ready.
unfoldable pub tx_submit : ℕ → BufDesc → DmaDesc → Mxlk → Mxlk
tx_submit tail bd dd m =
    let td = td_at m.tx.tdr tail in
    let mmio = set_td_length (set_td_address m.mmio td dd.phys) td dd.length in
    record m {
      tx_ddr = set m.tx_ddr tail dd;
      mmio = set_td_status (set_td_interface mmio td bd.interface) td desc_status_error;
    }

-- The part that adds what is to be sent, from `tail` to the place before `head`.
unfoldable pub submit_loop : ℕ → Dma → ℕ → ℕ → Mxlk → Option (Mxlk × ℕ)
submit_loop zero dma tail head m = none
submit_loop (suc fuel) dma tail head m =
    let (bd, write') = list_get m.write in
    let taken : Mxlk = record m { write = write' } in
    if circular_inc tail m.tx.ndesc == head then some (m, tail) else elim bd [
      | none ↦ some (m, tail)
      | some b ↦
          let (dd, failed) = map_dma dma b in
          let sent =
            submit_loop fuel dma (circular_inc tail m.tx.ndesc) head (tx_submit tail b dd taken) in
          if failed then some (record taken { tx_ddr = set m.tx_ddr tail dd }, tail) else sent
    ]

unfoldable pub tx_publish : Mxlk → ℕ → Bool → Mxlk × List Request
tx_publish m tail freed =
    let wake = if freed then wake_writers ∷ [] else [] in
    if get_tdr m.mmio m.tx.tail == tail
    then (m, wake)
    else (record m { mmio = set_tdr m.mmio m.tx.tail tail }, send_doorbell ∷ wake)

unfoldable pub tx_fuel : Mxlk → ℕ
tx_fuel m = suc m.tx.ndesc

unfoldable pub tx_event_handler : Dma → Mxlk → Option (Mxlk × List Request)
tx_event_handler dma m =
    let m' : Mxlk = record m { tx_event_runs = size_add m.tx_event_runs 1 } in
    let old = m.tx.old in
    let tail = get_tdr m.mmio m.tx.tail in
    let head = get_tdr m.mmio m.tx.head in
    if is_invalid head || is_invalid tail
    then some (m', [])
    else elim (reclaim_loop (tx_fuel m) old head m') [
      | none ↦ none
      | some r ↦ elim (submit_loop (tx_fuel m) dma tail head r) [
        | none ↦ none
        | some e ↦ some (tx_publish e.0 e.1 (not (old == head)))
      ]
    ]
