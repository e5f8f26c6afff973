-- ===== src/Vpu.antt =====
-- vpu/mxvp: the driver of the vision processor.
pub mod Queue
pub mod Blocks
pub mod FreeList
pub mod CmdList
pub mod Bspec
pub mod Cmd
pub mod Async
pub mod Events
pub mod Life
pub mod Module
