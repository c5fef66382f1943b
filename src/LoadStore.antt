-- ===== src/LoadStore.antt =====
-- api/load_store.c and emit_add_sub_i of api/helpers.c, for RISC-V: which instructions access memory,
-- at what address, and how many bytes; LoadStore.A64 has the first and the last for AArch64. The encoders and the field decoders are generated by the build:
-- a call of an `emit_riscv_` function is recorded, the newest first, and the fields are a parameter.
pub mod Inst
pub mod Kinds
pub mod Encodings
pub mod Sizes
pub mod Offsets
pub mod Access
pub mod Agree
pub mod Layout
pub mod Slots
pub mod Emit
pub mod Run
pub mod Addresses
pub mod Pieces
pub mod VectorManual
pub mod Vectors
pub mod A64
pub mod A64Kinds
mod Tests
