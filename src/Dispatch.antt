-- ===== src/Dispatch.antt =====
-- dispatcher.c and arch/riscv/dispatcher_riscv.c: how a block that has ended is linked to the next one,
-- in a build for RISC-V with traces and jump trampolines. The code that is written is a list of
-- encoder calls with their addresses, the newest first. What makes caches coherent is left out.
pub mod Trampolines
pub mod Link
pub mod Machine
pub mod Slots
pub mod Order
pub mod Chains
mod Tests
