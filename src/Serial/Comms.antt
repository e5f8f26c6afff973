-- ===== src/Serial/Comms.antt =====
-- serial/mxlk/mxlk_core.c: starting and stopping communications with the device's application. The
-- acts are the calls of the kernel; `streams` stands for the rings and the pools.
pub mod Start
pub mod Stop
pub mod Refuse
use pcie_host_driver.Prelude.{
  ℕ, ◌+◌, ◌^◌, Bool, true, false, not, ◌&&◌, Option, none, some, List, [], ◌∷◌, ◌++◌, ◌==◌,
  if◌then◌else◌,
}
use pcie_host_driver.Mmio.{Mem, rd8, rd32, wr32}
use pcie_host_driver.Common.Effects.{
  acquire, release, streams, debug_file, write_config, Run, ◌>>=◌, ◌>>◌, does, return,
}
use pcie_host_driver.Serial.Buffers.{
  BufDesc, BufList, size_add, size_sub, list_init, list_cleanup, get_from, pool_free,
}
use pcie_host_driver.Serial.Stream.{Traffic}
use pcie_host_driver.Serial.Ring.{Mxlk, Dma}
use pcie_host_driver.Serial.Caps.{cap_find, cap_txrx}
use pcie_host_driver.Serial.Setup.{
  Grant, TxrxStatus, txrx_ok, txrx_error, divide_error, txrx_init, txrx_cleanup,
}

-- `struct mxlk_stats`
pub record Stats : Type 0 where
  pub tx_krn : Traffic
  pub rx_krn : Traffic
  pub tx_usr : Traffic
  pub rx_usr : Traffic
  pub doorbells : ℕ
  pub interrupts : ℕ
  pub rx_event_runs : ℕ
  pub tx_event_runs : ℕ

abbrev pub no_traffic : Traffic
no_traffic = record { pkts = 0; bytes = 0 }

abbrev pub no_stats : Stats
no_stats = record {
  tx_krn = no_traffic;
  rx_krn = no_traffic;
  tx_usr = no_traffic;
  rx_usr = no_traffic;
  doorbells = 0;
  interrupts = 0;
  rx_event_runs = 0;
  tx_event_runs = 0;
}

-- `struct mxlk` with its one interface: the part that the handlers use, and the rest.
pub record Port : Type 0 where
  pub link : Mxlk
  pub opened : ℕ
  pub partial_read : Option BufDesc
  pub tx_usr : Traffic
  pub rx_usr : Traffic
  pub doorbells : ℕ
  pub interrupts : ℕ
  pub stats_old : Stats
  pub status : ℕ
  pub unit : ℕ

unfoldable pub stats : Port → Stats
stats p = record {
  tx_krn = p.link.tx_krn;
  rx_krn = p.link.rx_krn;
  tx_usr = p.tx_usr;
  rx_usr = p.rx_usr;
  doorbells = p.doorbells;
  interrupts = p.interrupts;
  rx_event_runs = p.link.rx_event_runs;
  tx_event_runs = p.link.tx_event_runs;
}

-- the memsets of `stats` and of `stats_old`
unfoldable pub clear_stats : Port → Port
clear_stats p = record p {
  link = record p.link {
    tx_krn = no_traffic;
    rx_krn = no_traffic;
    rx_event_runs = 0;
    tx_event_runs = 0;
  };
  tx_usr = no_traffic;
  rx_usr = no_traffic;
  doorbells = 0;
  interrupts = 0;
  stats_old = no_stats;
}

abbrev pub reg_version : ℕ
reg_version = 16

abbrev pub reg_dev_status : ℕ
reg_dev_status = 20

abbrev pub reg_host_status : ℕ
reg_host_status = 24

abbrev pub status_uninit : ℕ
status_uninit = 0

abbrev pub status_run : ℕ
status_run = 2

abbrev pub version_major : ℕ
version_major = 1

abbrev pub version_minor : ℕ
version_minor = 3

-- `mxlk_version_check`; `false` for -EIO
unfoldable pub version_check : Mem → Bool
version_check mmio =
    (rd8 mmio reg_version == version_major) && (rd8 mmio (reg_version + 1) == version_minor)

unfoldable pub set_host_status : Port → ℕ → Port
set_host_status p status = record p {
  status = status;
  link = record p.link { mmio = wr32 p.link.mmio reg_host_status status };
}

abbrev pub get_device_status : Mem → ℕ
get_device_status mmio = rd32 mmio reg_dev_status

-- What `mxlk_discover_txrx` returns: -EIO for `none`.
unfoldable pub discover_txrx : Grant → Dma → ℕ → ℕ → Mxlk → Mxlk × Option TxrxStatus
discover_txrx g dma rx_size tx_size m = elim (cap_find m.mmio 0 cap_txrx) [
  | none ↦ (m, none)
  | some cap ↦ let (m', status) = txrx_init g dma rx_size tx_size cap m in (m', some status)
]

-- `mxlk_interfaces_init`, of the one interface
unfoldable pub interfaces_init : Port → Port
interfaces_init p = record p {
  opened = 0;
  partial_read = none;
  link = record p.link { write = list_init; read = list_init };
}

-- The loop of `mxlk_interface_cleanup` over the list `read`, with its chain: what is left of the
-- list, and the pool.
unfoldable pub free_read : List BufDesc → BufList → BufList → BufList × BufList
free_read [] l pool = (l, pool)
free_read (bd ∷ bds) l pool = free_read bds (get_from l (bd ∷ bds)).1 (pool_free pool (some bd))

-- `mxlk_interfaces_cleanup`, with the descriptors that it frees
unfoldable pub interfaces_cleanup : Port → Port × List BufDesc
interfaces_cleanup p =
    let (read, rx_pool) =
      free_read p.link.read.chain p.link.read (pool_free p.link.rx_pool p.partial_read) in
    (
      record p {
        opened = 0;
        link = record p.link { write = list_cleanup p.link.write; read = read; rx_pool = rx_pool };
      },
      p.link.write.chain,
    )

abbrev pub doorbell_addr : ℕ
doorbell_addr = 0xFF0

-- "RING"
abbrev pub doorbell_data : ℕ
doorbell_data = 0x72696E67

unfoldable pub ring_doorbell : Port → Run Port
ring_doorbell p = do
  does (write_config doorbell_addr doorbell_data ∷ [])
  return (record p { doorbells = size_add p.doorbells 1 })

-- 0, -EIO, the -1 of `mxlk_txrx_init`, or its division by 0
pub data CommsStatus : Type 0 where
  comms_ok comms_eio comms_error comms_trap : CommsStatus

-- the part of `mxlk_comms_init` behind the discovery of the rings; device_create_file, whose result is
-- not looked at, is taken to succeed
unfoldable pub start_comms : Port → Run (Port × CommsStatus)
start_comms p = do
  does (acquire streams ∷ [])
  does (acquire debug_file ∷ [])
  rung ← ring_doorbell (clear_stats (set_host_status (interfaces_init p) status_run))
  return (rung, comms_ok)

unfoldable pub comms_init : Grant → Dma → ℕ → ℕ → Port → Run (Port × CommsStatus)
comms_init g dma rx_size tx_size p =
    let (link, found) = discover_txrx g dma rx_size tx_size p.link in
    let p' : Port = record p { link = link } in
    if not (get_device_status p.link.mmio == status_run)
    then return (p, comms_eio)
    else if not (version_check p.link.mmio)
    then return (p, comms_eio)
    else elim found [
      | none ↦ return (p', comms_eio)
      | some status ↦ elim status [
        | txrx_ok ↦ start_comms p'
        | txrx_error ↦ return (p', comms_error)
        | divide_error ↦ return (p', comms_trap)
      ]
    ]

-- `mxlk_comms_cleanup`, with the descriptors that it frees
unfoldable pub comms_cleanup : Port → Run (Port × List BufDesc)
comms_cleanup p =
    let (q, written) = interfaces_cleanup (set_host_status p status_uninit) in
    let (link, freed) = txrx_cleanup q.link in
    do
      does (release debug_file ∷ [])
      does (release streams ∷ [])
      return (
        record q { link = record link { write = list_cleanup link.write } },
        written ++ (freed ++ link.write.chain),
      )

-- What `mxlk_debug_show` prints: each counter with what it has grown by since the last time.
abbrev pub shown : ℕ → ℕ → ℕ × ℕ
shown a b = (a, size_sub a b)

unfoldable pub show_traffic : Traffic → Traffic → List (ℕ × ℕ)
show_traffic a b = shown a.pkts b.pkts ∷ shown a.bytes b.bytes ∷ []

unfoldable pub debug_show : Port → Port × List (ℕ × ℕ)
debug_show p =
    let s = stats p in
    let o = p.stats_old in
    (
      record p { stats_old = s },
      show_traffic s.tx_krn o.tx_krn
          ++ (show_traffic s.tx_usr o.tx_usr
              ++ (show_traffic s.rx_krn o.rx_krn
                  ++ (show_traffic s.rx_usr o.rx_usr
                      ++ (shown s.interrupts o.interrupts
                          ∷ shown s.doorbells o.doorbells
                          ∷ shown s.rx_event_runs o.rx_event_runs
                          ∷ shown s.tx_event_runs o.tx_event_runs
                          ∷ [])))),
    )

-- `mxlk_debug_store`
abbrev pub debug_store : Port → Port
debug_store p = clear_stats p
