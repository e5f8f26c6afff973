-- ===== src/Tests/Comms.antt =====
-- Starting and stopping communications.
use pcie_host_driver.Prelude.{true, false, some, [], ◌∷◌, ◌==◌, if◌then◌else◌}
use pcie_host_driver.Mmio.{Mem}
use pcie_host_driver.Serial.Buffers.{BufDesc, list_init}
use pcie_host_driver.Serial.Ring.{Pipe, Dma}
use pcie_host_driver.Serial.Setup.{Grant}
use pcie_host_driver.Serial.Comms.{Port, no_traffic, no_stats}
use pcie_host_driver.Serial.Comms.Stop.{Stopped, comms_cleanup-Stopped}

abbrev pub one_buffer : BufDesc
one_buffer = record {
  head = 4096;
  true_len = 4;
  bytes = 10 ∷ 20 ∷ 30 ∷ 40 ∷ [];
  data_at = 0;
  length = 4;
  interface = 0;
}

-- Version 1.3, a running device, and a capability at 40 with fragments of 16 bytes and rings of two
-- descriptors, the receive ring at 128.
abbrev pub ready_memory : Mem
ready_memory a =
    if a == 16
    then 1
    else if a == 17
    then 3
    else if a == 20
    then 2
    else if a == 28
    then 40
    else if a == 40
    then 3
    else if a == 44
    then 16
    else if a == 52
    then 2
    else if a == 64
    then 128
    else if a == 68
    then 2
    else if a == 76
    then 1
    else 0

abbrev pub no_pipe : Pipe
no_pipe = record { old = 0; ndesc = 0; head = 0; tail = 0; tdr = 0 }

abbrev pub port_of : Mem → Port
port_of mmio = record {
  link = record {
    mmio = mmio;
    tx = no_pipe;
    tx_ddr = [];
    rx = record no_pipe { ndesc = 1 };
    rx_ddr = record { bd = some one_buffer; phys = 0; length = 4 } ∷ [];
    write = list_init;
    rx_pool = record { bytes = 4; buffers = 1; chain = one_buffer ∷ [] };
    tx_pool = list_init;
    read = list_init;
    tx_krn = no_traffic;
    rx_krn = no_traffic;
    rx_event_runs = 0;
    tx_event_runs = 0;
  };
  opened = 0;
  partial_read = some one_buffer;
  tx_usr = no_traffic;
  rx_usr = no_traffic;
  doorbells = 0;
  interrupts = 0;
  stats_old = no_stats;
  status = 0;
  unit = 0;
}

abbrev pub granted : Grant
granted = record {
  tx_ring = true;
  rx_ring = true;
  rx_bd = λ i. (true, some 4096);
  tx_bd = λ i. (true, some 4096);
  cache_line = 64;
}

abbrev pub maps : Dma
maps b = (8192, false)

stop_example : Stopped (port_of ready_memory)
stop_example = comms_cleanup-Stopped (port_of ready_memory)
