-- ===== src/Serial/Comms/Start.antt =====
-- serial/mxlk/mxlk_core.c: what `mxlk_comms_init` leaves on a device that is ready: the two rings are
-- as their handlers need them.
use pcie_host_driver.Prelude.{ℕ, ◌+◌, ◌*◌, ◌^◌, ◌≤◌, ◌<◌, ◌≡◌, true, false, some, [], length}
use pcie_host_driver.Mmio.{Mem, rd32}
use pcie_host_driver.Mmio.Laws.{Apart}
use pcie_host_driver.Common.Effects.{Held, Run}
use pcie_host_driver.Common.Effects.Ledger.{books}
use pcie_host_driver.Serial.Buffers.{BufDesc}
use pcie_host_driver.Serial.Ring.{Dma}
use pcie_host_driver.Serial.Ring.Refilled.{Fresh}
use pcie_host_driver.Serial.Ring.Rx.{IsRxRing}
use pcie_host_driver.Serial.Transmit.Tx.{IsTxRing}
use pcie_host_driver.Serial.Caps.{cap_find, cap_txrx}
use pcie_host_driver.Serial.Setup.{Grant, pool_ndesc, cap_fragment_size, cap_tx, cap_rx}
use pcie_host_driver.Serial.Setup.Pools.{AllGranted, IsPoolOf}
use pcie_host_driver.Serial.Comms.{
  Port, CommsStatus, comms_ok, start_comms, get_device_status, status_run, version_check,
  reg_host_status,
}

-- A device whose application is ready, with a capability at `base` that has well-formed rings, and a
-- kernel that grants everything.
pub record IsReady (g : Grant) (dma : Dma) (rx_size tx_size base : ℕ) (mmio : Mem) : Type 0 where
  pub running : get_device_status mmio ≡ status_run
  pub version : version_check mmio ≡ true
  pub found : cap_find mmio 0 cap_txrx ≡ some base
  pub tx_ring : g.tx_ring ≡ true
  pub rx_ring : g.rx_ring ≡ true
  pub rx_bds : AllGranted g.rx_bd
  pub tx_bds : AllGranted g.tx_bd
  pub line : 0 < g.cache_line
  pub maps : (b : BufDesc) → (dma b).1 ≡ false
  pub fragment : 0 < rd32 mmio (base + cap_fragment_size)
  pub enough :
      rd32 mmio (base + cap_rx + 4) ≤ pool_ndesc rx_size (rd32 mmio (base + cap_fragment_size))
  pub rx_small : rd32 mmio (base + cap_rx + 4) < 2 ^ 32
  pub tx_small : rd32 mmio (base + cap_tx + 4) < 2 ^ 32
  pub rx_head : rd32 mmio (base + cap_rx + 8) < rd32 mmio (base + cap_rx + 4)
  pub rx_tail : rd32 mmio (base + cap_rx + 12) < rd32 mmio (base + cap_rx + 4)
  pub tx_tail : rd32 mmio (base + cap_tx + 12) < rd32 mmio (base + cap_tx + 4)
  pub idle : rd32 mmio (base + cap_tx + 8) ≡ rd32 mmio (base + cap_tx + 12)
  pub apart_ring :
      Apart (rd32 mmio (base + cap_rx)) (rd32 mmio (base + cap_rx + 4) * 16) (base + 16) 24
  pub apart_tx :
      Apart (base + cap_tx + 12) 4 (rd32 mmio (base + cap_tx)) (rd32 mmio (base + cap_tx + 4) * 16)
  pub apart_status : Apart reg_host_status 4 (base + 16) 24
  pub apart_told :
      Apart reg_host_status 4 (rd32 mmio (base + cap_rx)) (rd32 mmio (base + cap_rx + 4) * 16)

-- What is left when communications have started.
pub record Started (dma : Dma) (rx_ndesc tx_ndesc : ℕ) (p : Port) (o : Run (Port × CommsStatus))
    : Type 0 where
  pub port : Port
  pub eq : o.1 ≡ (port, comms_ok)
  pub books :
      (h : Held)
      → books o.0 (record h { streams = false; debug_file = false })
        ≡ some (record h { streams = true; debug_file = true })
  pub told : rd32 port.link.mmio reg_host_status ≡ status_run
  pub rx : IsRxRing port.link
  pub tx : IsTxRing dma port.link [] []
  pub slots :
      (j : ℕ) → j < port.link.rx.ndesc → Fresh dma port.link.rx port.link.mmio port.link.rx_ddr j
  pub rx_pool : length port.link.rx_pool.chain + length port.link.rx_ddr ≡ rx_ndesc
  pub tx_pool : IsPoolOf tx_ndesc port.link.tx_pool
  pub read : port.link.read.chain ≡ []
  pub write : port.link.write.chain ≡ []

-- the state that `start_comms` leaves
abbrev started : Port → Port
started p = (start_comms p).1.0
