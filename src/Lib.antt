-- ===== src/Lib.antt =====
-- The host side of the PCIe drivers for the Myriad X: a model of the drivers' own logic.
--
-- The repository has three drivers over common code. common/ reads and writes the memory that the
-- device exposes, tells its operation mode, loads a boot image into it and brings the PCI function
-- up. vpu/mxvp is the driver of the vision processor: clients build commands, send them on a queue
-- in the device's memory, and are called back when the reply comes through another queue.
-- serial/mxlk moves bytes between files and two rings of transfer descriptors that it shares with
-- the device, and resets and boots the device on request. boot/mxbl is a stand-alone loader.
--
-- The files, and what they model:
--   Prelude: library names passed on, Boolean tests and lists over native numbers
--   Mmio (common/mx_mmio.h, vpu/mxvp/mxvp_mmio.h): a memory is the byte at each address
--   Common.Opmode (common/mx_utils.c), Common.Boot (common/mx_boot.c), Common.Pci (common/mx_pci.c),
--     Common.Reset (common/mx_reset.c); Common.Effects: what the control code does to the kernel, and
--     what of the kernel's it holds, with the ledger that fails on a double acquisition or release
--   Vpu.Queue (vpu/mxvp/mxvp_queue.c): the ring, with Queue.Fifo, Queue.Room and Queue.Pull on its
--     sequence, and Queue.Bounds on what is written; the int offsets of mxvp_mmio.h are int_at
--   Vpu.Blocks (vpu/mxvp/mxvp_mem.c): the pool of blocks; Vpu.FreeList: free lists of slots
--   Vpu.CmdList, Vpu.Bspec, Vpu.Async, Vpu.Events (vpu/mxvp/mxvp_bspec.c): the commands in flight,
--     sending and replies, async commands, and the interrupt and the set-up
--   Vpu.Cmd (vpu/mxvp/mxvp_cmd.c): the builders of commands
--   Vpu.Life (vpu/mxvp/mxvp_pci.c, vpu/mxvp/mxvp_main.c): the life of an instance
--   Serial.Buffers, Serial.Stream, Serial.Ring, Serial.Transmit, Serial.Setup
--     (serial/mxlk/mxlk_core.c): descriptors and lists, reading and writing, the receive and the
--     transmit handler, and the pools and rings; Serial.Caps (serial/mxlk/mxlk_capabilities.c)
--   Serial.Comms, Serial.Control, Serial.Admin (serial/mxlk/mxlk_core.c, serial/mxlk/mxlk_char.c,
--     serial/mxlk/mxlk_main.c): starting and stopping communications, the set-up and the clean-up of
--     an instance, and the interrupt, reset, boot, the ioctl, probe and removal
--   Loader (boot/mxbl/mxbl_core.c, boot/mxbl/mxbl_char.c, boot/mxbl/mxbl_main.c)
--   Serial.Module, Loader.Module, Vpu.Module (the three _main.c): loading and unloading the modules
--   Tests: concrete inputs
--
-- A function of the code has the name of the C function without the prefix mx_, mxvp_ or mxlk_
-- (mxvp_queue_push is queue_push, mxlk_core_read is core_read). State is passed explicitly: a
-- structure is a record, a pointer to a command is its address in the kernel's memory, and a chain
-- of buffer descriptors is the list of them. What the kernel or the device answers (allocations,
-- mappings, copies from and to the user, registers that change while they are polled) is an
-- argument. Numbers are natural, and the wrap-around of a machine word is written out. Control code
-- is a run: the list of its calls of the kernel, in order, and its result.
--
-- Bounds and fuel. A pull makes at most two rounds, since a marker is never followed by another.
-- A read makes at most three turns more than there are descriptors in the interface's list, a
-- write two more than there are in the pool, each of a handler's loops one more than the
-- ring has places.
-- A wait for a transfer ends within 1601 turns, 1500 of "starting" and 100 of "pending", unless the
-- device is "ready"; loading an image takes at most one turn more than the image has bytes.
--
-- Where the code does not return, the status says so: comms_trap for a division by a fragment size of
-- 0, overran for a pool of no block, whose set-up leaves its array, stuck for a queue of markers. The
-- acts that follow are none.
--
-- Not modelled: a failure of device_create_file, whose result the code does not look at; locks, wait
-- queues and delays, since each operation runs to its end with its lock held; the device's own writes
-- while a handler runs; logging; an image embedded in the loader; the image of the second-stage
-- loader, which is generated; tests and examples.
pub mod Prelude
pub mod Mmio
pub mod Common
pub mod Vpu
pub mod Serial
pub mod Loader
pub mod Tests
