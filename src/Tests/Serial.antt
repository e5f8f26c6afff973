-- ===== src/Tests/Serial.antt =====
-- The serial driver: a few descriptors of four bytes, a ring of two, and small capabilities.
use pcie_host_driver.Prelude.{
  none, inl, inr, ℕ, ◌%◌, ◌^◌, ◌<◌, ◌≡◌, ◌↔◌, refl, true, false, some, List, [], ◌∷◌, ◌++◌, arith,
  ◌==◌, if◌then◌else◌, length,
}
use pcie_host_driver.Mmio.{Mem, rd16, rd32, rd64, rd_buf}
use pcie_host_driver.Serial.Buffers.{BufDesc, BufList, no_interface, fresh}
use pcie_host_driver.Serial.Stream.{Traffic, Reader, Writer, core_write}
use pcie_host_driver.Serial.Stream.Read.{Delivered, core_read-Delivered}
use pcie_host_driver.Serial.Stream.Write.{Queued, core_write-Queued, core_write-stale}
use pcie_host_driver.Serial.Ring.{
  get_td_address, get_td_length, get_td_interface, Pipe, DmaDesc, Mxlk, circular_inc,
}
use pcie_host_driver.Serial.Ring.Rx.{IsRxRing, Received, rx_event_handler-Received}
use pcie_host_driver.Serial.Transmit.Tx.{IsTxRing, Transmitted, tx_event_handler-Transmitted}
use pcie_host_driver.Serial.Caps.{reg_cap_offset, cap_find}
use pcie_host_driver.Serial.Caps.Find.{Leads, cap_find_iff}

-- a descriptor whose four bytes hold `n` bytes of data from `at` on
abbrev buffer : ℕ → ℕ → BufDesc
buffer at n = record {
  head = 4096;
  true_len = 4;
  bytes = 10 ∷ 20 ∷ 30 ∷ 40 ∷ [];
  data_at = at;
  length = n;
  interface = 0;
}

abbrev list_of : List BufDesc → ℕ → BufList
list_of bds bytes = record { bytes = bytes; buffers = length bds; chain = bds }

abbrev no_traffic : Traffic
no_traffic = record { pkts = 0; bytes = 0 }

-- two bytes left of an earlier read, and a descriptor of four behind them
abbrev reader : Reader
reader = record {
  rx_pool = list_of [] 0;
  read = list_of (buffer 0 4 ∷ []) 4;
  partial_read = some (buffer 2 2);
  rx_usr = no_traffic;
}

read_example : Delivered (λ n. n == 0) reader 5
read_example = core_read-Delivered (λ n. n == 0) reader 5 (omega arith) (omega arith, tt)

abbrev writer : Writer
writer = record {
  tx_pool = list_of (buffer 0 4 ∷ buffer 0 4 ∷ []) 8;
  write = list_of [] 0;
  tx_usr = no_traffic;
}

write_example : Queued (λ n. true) 0 writer (1 ∷ 2 ∷ 3 ∷ 4 ∷ 5 ∷ [])
write_example =
    core_write-Queued (λ n. true) 0 writer (1 ∷ 2 ∷ 3 ∷ 4 ∷ 5 ∷ []) (λ n. refl)
      ((omega arith, omega arith), ((omega arith, omega arith), tt)) (λ e. cc e)

stale_example :
    (w' : Writer) × (core_write (λ n. true) 0 writer [] ≡ some (w', true, 0))
    × (w'.write.chain ≡ [] ++ (fresh (buffer 0 4) ∷ []))
    × ((fresh (buffer 0 4)).length ≡ 4)
    × ((fresh (buffer 0 4)).interface ≡ no_interface)
stale_example = core_write-stale (λ n. true) 0 writer (buffer 0 4) (buffer 0 4 ∷ []) refl

-- registers of the pipes: the head of the receive ring is 0 and its tail 1
abbrev registers : Mem
registers a = if a == 4 then 1 else 0

abbrev pipe : Pipe
pipe = record { old = 0; ndesc = 2; head = 0; tail = 4; tdr = 64 }

abbrev slot : DmaDesc
slot = record { bd = some (buffer 0 4); phys = 8192; length = 4 }

abbrev link : Mxlk
link = record {
  mmio = registers;
  tx = pipe;
  tx_ddr = [];
  rx = pipe;
  rx_ddr = slot ∷ slot ∷ [];
  write = list_of [] 0;
  rx_pool = list_of (buffer 0 4 ∷ []) 4;
  tx_pool = list_of [] 0;
  read = list_of [] 0;
  tx_krn = no_traffic;
  rx_krn = no_traffic;
  rx_event_runs = 0;
  tx_event_runs = 0;
}

link-IsRxRing : IsRxRing link
unfolding rd32 rd_buf
link-IsRxRing = record {
  small = omega arith;
  head = omega arith;
  tail = omega arith;
  size = refl;
  held = (refl, (refl, tt));
  apart_head = inl (omega arith);
  apart_tail = inr (omega arith);
  apart_both = inl (omega arith);
}

receive_example : Received (λ b. (8192, false)) link
receive_example = rx_event_handler-Received (λ b. (8192, false)) link link-IsRxRing

-- a capability of the kind 3 at 32 behind one of the kind 1 at 40
abbrev capabilities : Mem
capabilities a =
    if a == 28 then 40 else if a == 40 then 1 else if a == 42 then 32 else if a == 32 then 3 else 0

find_example :
    let first = if 0 == 0 then rd32 capabilities reg_cap_offset % 2 ^ 16 else 0 in
    (cap_find capabilities 0 3 ≡ some 32) ↔ ((k : ℕ) × (k < 32) × Leads capabilities 3 first k 32)
find_example = cap_find_iff capabilities 0 3 32

abbrev gap_slot : DmaDesc
gap_slot = record { bd = none; phys = 0; length = 0 }

-- a transmit ring of four, whose device has sent the first of two descriptors, and three queued
abbrev sending : Mxlk
sending = record link {
  mmio = (λ a.
      if a == 0 then 1 else if a == 4 then 2 else if a == 81 then 32 else if a == 88 then 2 else 0);
  tx = record pipe { ndesc = 4 };
  tx_ddr =
      record slot { bd = some (buffer 0 1) }
      ∷ record slot { bd = some (buffer 0 2) }
      ∷ gap_slot
      ∷ gap_slot
      ∷ [];
  write = list_of (buffer 0 3 ∷ buffer 0 4 ∷ buffer 1 3 ∷ []) 10;
}

sending-IsTxRing : IsTxRing (λ b. (8192, false)) sending (buffer 0 1 ∷ []) (buffer 0 2 ∷ [])
unfolding rd64 rd32 rd16 rd_buf circular_inc get_td_address get_td_length get_td_interface
sending-IsTxRing = record {
  small = omega arith;
  old = omega arith;
  head = omega arith;
  sent = (omega arith, inl refl);
  ring = record {
    size = refl;
    place = omega arith;
    steps = (omega arith, inl refl);
    full = (refl, (refl, tt));
    gaps = 2;
    sum = refl;
    free = (refl, (refl, tt));
  };
  told = ((refl, refl, refl), tt);
  apart = inl (omega arith);
}

transmit_example : Transmitted (λ b. (8192, false)) sending (buffer 0 1 ∷ []) (buffer 0 2 ∷ [])
transmit_example =
    tx_event_handler-Transmitted (λ b. (8192, false)) sending (buffer 0 1 ∷ []) (buffer 0 2 ∷ [])
      (λ b. refl) sending-IsTxRing
