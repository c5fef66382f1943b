-- ===== src/LoadStore/Vectors.antt =====
-- The emitted code computes the bytes of a vector access.
use mambo.Base.{ℕ, ◌+◌, ◌-◌, ◌*◌, ◌/◌, ◌%◌, ◌^◌, ◌≤◌, ◌<◌, if◌then◌else◌}
use mambo.Riscv.{word64}
use mambo.LoadStore.Emit.{
  eew_bytes, nf_count, is_whole_reg, is_mask, is_indexed, csr_vl, csr_vstart, csr_vtype, csr_vlenb,
}
use mambo.LoadStore.Run.{Hart}

-- The bytes that the emitted code computes.
abbrev computed_bytes : ℕ → Hart → ℕ
computed_bytes w h =
    let active = h.csr csr_vl - h.csr csr_vstart in
    if is_whole_reg w
    then nf_count w * h.csr csr_vlenb
    else if is_mask w
    then (h.csr csr_vl + 7) / 8
    else if is_indexed w
    then active * 2 ^ (h.csr csr_vtype / 8 % 8) * nf_count w
    else active * eew_bytes w * nf_count w

-- The control registers hold what the vector unit can give them.
abbrev pub Sane : Hart → Type 0
Sane h =
    (h.csr csr_vl < 2 ^ 32)
    × (h.csr csr_vstart ≤ h.csr csr_vl)
    × (h.csr csr_vtype < word64)
    × (h.csr csr_vlenb < 2 ^ 32)
