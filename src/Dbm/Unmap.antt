-- ===== src/Dbm/Unmap.antt =====
-- An unmap of executable code: the map of ranges and the code cache of dbm.c.
use mambo.Base.{
  ℕ, ◌+◌, ◌%◌, ◌^◌, ◌≤◌, ◌<◌, ◌≡◌, refl, if◌then◌else◌, ℤ, pos, arith, Bool-cases, inl, inr,
  Returns,
}
use mambo.Base.Int.{ltb_ℤ}
use mambo.IntervalMap.{Os}
use mambo.IntervalMap.Round.{Works, within, hits, straddles, cut}
use mambo.IntervalMap.Tally.{IsValid, count_of, mult}
use mambo.IntervalMap.Delete.{interval_map_delete_lem}
use mambo.Dbm.{Sizes}
use mambo.Dbm.Vm.{VmOp, Process, notify_vm_op}
use mambo.Dbm.Flush.{Sized, Emptied, flush_code_cache_lem}

-- If the calls of the C library succeed, the range is not empty and does not wrap around, the map of
-- executable ranges is valid with room for the entries that are split and no entry cut by only one
-- end, and the thread has tables of their sizes: after an unmap the map is valid and without exactly
-- the addresses of the range. If an executable range overlaps it, the code cache is flushed: its hash
-- table is valid, no address other than 0 has a translation and every block is blank. If none does,
-- the thread is unchanged.
pub notify_vm_op_unmap :
    (os : Os) (c : Sizes) (shift : ℕ) (p : Process) (addr size prot : ℕ) (fd : ℤ)
    → Works os
    → 0 < size
    → addr + size < 2 ^ 64
    → IsValid p.exec_allocs
    → count_of (cut addr (addr + size)) p.exec_allocs ≡ 0
    → p.exec_allocs.entry_count + count_of (straddles addr (addr + size)) p.exec_allocs
      ≤ p.exec_allocs.mem_size
    → Sized c p.current_thread
    → Returns (notify_vm_op os c p VmOp.vm_unmap addr size prot fd) λ q.
      IsValid q.exec_allocs
      × ((a : ℕ)
          → mult a q.exec_allocs
            ≡ (if within addr (addr + size) a then 0 else mult a p.exec_allocs))
      × (0 < count_of (hits addr (addr + size)) p.exec_allocs → Emptied c shift q.current_thread)
      × (count_of (hits addr (addr + size)) p.exec_allocs ≡ 0 → q.current_thread ≡ p.current_thread)
unfolding notify_vm_op
notify_vm_op_unmap os c shift p addr size prot fd works positive no_wrap valid whole room sized =
    let end : (addr + size) % 2 ^ 64 ≡ addr + size = omega (arith, no_wrap) in
    let ((ret, m'), run, (found, valid', mults)) =
      interval_map_delete_lem os works p.exec_allocs addr (addr + size) (omega arith) valid whole
        room in
    let (t', flushed, (first, emptied)) = flush_code_cache_lem c shift p.current_thread sized in
    elim (Bool-cases (ltb_ℤ (pos 0) (pos (count_of (hits addr (addr + size)) p.exec_allocs)))) [
      | inl some_hit ↦
          rw (end, run, found, some_hit, flushed)
            (_, refl, (valid', mults, λ h. emptied, λ h. absurd (ground (arith, h, some_hit))))
      | inr no_hit ↦
          rw (end, run, found, no_hit)
            (_, refl, (valid', mults, λ h. absurd (ground (arith, h, no_hit)), λ h. refl))
    ]
