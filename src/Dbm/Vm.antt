-- ===== src/Dbm/Vm.antt =====
-- `notify_vm_op` of dbm.c, in a build without plugins: the map of executable ranges and the code cache
-- of the current thread follow the changes of the address space.
use mambo.Base.{
  ℕ, ◌+◌, ◌/◌, ◌%◌, ◌^◌, Bool, ◌==◌, if◌then◌else◌, not, ℤ, pos, is_zero, is_negative, Outcome, ok,
  assert, ◌>>=◌, ◌>>◌,
}
use mambo.Base.Int.{ltb_ℤ}
use mambo.IntervalMap.{Os, State, interval_map_add, interval_map_delete}
use mambo.Dbm.{Thread, Sizes}
use mambo.Dbm.Cache.{flush_code_cache}

pub data VmOp : Type 0 where
  vm_map : VmOp
  vm_unmap : VmOp
  vm_prot : VmOp

-- `global_data.exec_allocs` and `current_thread`
pub record Process : Type 0 where
  pub exec_allocs : State
  pub current_thread : Thread

-- `prot & PROT_EXEC`
abbrev pub is_exec : ℕ → Bool
is_exec prot = prot / 4 % 2 == 1

unfoldable pub add_exec : Os → Process → ℕ → ℕ → ℕ → ℤ → Outcome Process
add_exec os p addr end prot fd =
    let added = interval_map_add os p.exec_allocs addr end fd >>= λ (ret, allocs).
    assert (is_zero ret) >> ok (record p { exec_allocs = allocs }) in
    if is_exec prot then added else ok p

unfoldable pub notify_vm_op : Os → Sizes → Process → VmOp → ℕ → ℕ → ℕ → ℤ → Outcome Process
notify_vm_op os c p VmOp.vm_map addr size prot fd =
    add_exec os p addr ((addr + size) % 2 ^ 64) prot fd
notify_vm_op os c p VmOp.vm_prot addr size prot fd =
    add_exec os p addr ((addr + size) % 2 ^ 64) prot fd
notify_vm_op os c p VmOp.vm_unmap addr size prot fd =
    interval_map_delete os p.exec_allocs addr ((addr + size) % 2 ^ 64) >>= λ (ret, allocs).
    let flushed = flush_code_cache c p.current_thread >>= λ t.
    ok (record { exec_allocs = allocs; current_thread = t }) in
    let kept = ok (record p { exec_allocs = allocs }) in
    assert (not (is_negative ret)) >> (if ltb_ℤ (pos 0) ret then flushed else kept)
