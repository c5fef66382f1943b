-- ===== src/Align.antt =====
-- common.h: the alignment of addresses, with the wrap-around of a 64-bit `uintptr_t`.
pub mod Bounds
mod Tests
use mambo.Base.{
  ℕ, ◌+◌, ◌*◌, ◌/◌, ◌%◌, ◌^◌, Bool, not, ◌&&◌, ◌==◌, if◌then◌else◌, ℤ, pos, negsuc, pos_part,
  neg_part, leb,
}

unfoldable pub align_lower : ℕ → ℕ → ℕ
align_lower address alignment = address / alignment * alignment

unfoldable pub align_higher : ℕ → ℕ → ℕ
align_higher address alignment =
    let aligned_address = align_lower address alignment in
    if not (aligned_address == address)
    then (aligned_address + alignment) % 2 ^ 64
    else aligned_address
