-- ===== src/Dbm/Tests.antt =====
-- A code cache of four blocks that is full, an executable range, and a list of two threads.
use mambo.Base.{
  ◌≢◌, ap, get_or-replicate, ◌>>=◌, ℕ, ◌+◌, ◌≤◌, ◌<◌, ◌≡◌, refl, true, false, none, some, [], ◌∷◌,
  ◌==◌, suc, if◌then◌else◌, replicate, tally, is_in, without, pos, minus_one, ok, Returns, arith,
  Bool-cases, inl, inr,
}
use mambo.CodeHash.Lookup
use mambo.CodeHash.{HashEntry, empty_entry, get_index, lookup_loop, hash_lookup}
use mambo.LinkedList.{null_entry}
use mambo.IntervalMap.{Os, State}
use mambo.IntervalMap.Round.{Works, within, hits}
use mambo.IntervalMap.Tally.{IsValid, count_of, mult}
use mambo.Dbm.{BranchType, Meta, Thread, Sizes, null_meta}
use mambo.Dbm.Cache.{
  allocate_bb, allocate_bb_overflow, meta_at, cc_lookup, lookup_or_stub, scan,
  lookup_or_scan_with_cached,
}
use mambo.Dbm.Fragments.{addr_to_fragment_id}
use mambo.Dbm.Search.{Ordered, Holds, addr_to_fragment_id_lem}
use mambo.Dbm.Stubs.{lookup_or_stub_lem}
use mambo.Dbm.Flush.{Sized, Emptied, allocate_bb_lem}
use mambo.Dbm.Vm.{VmOp, Process, notify_vm_op}
use mambo.Dbm.Unmap.{notify_vm_op_unmap}
use mambo.Dbm.Threads.{Callback, Registry, Mutex, register_thread, unregister_thread}
use mambo.Dbm.Chain.{Chain}
use mambo.Dbm.Registry.{unregister_thread_lem}

abbrev small : Sizes
small = record {
  code_cache_size = 4;
  code_cache_overp = 1;
  trampolines_size_bbs = 1;
  hash_size = 12;
  max_cc_links = 2;
  max_branch_range = 2048;
}

abbrev trace_meta : ℕ → Meta
trace_meta tpc = record null_meta { tpc = tpc }

-- The traces begin at 5120; fragments 4 and 5 begin at 5120 and at 5200.
abbrev full_thread : Thread
full_thread = record {
  free_block = 3;
  was_flushed = false;
  blocks = 4096;
  code_cache_meta =
      null_meta ∷ null_meta ∷ null_meta ∷ null_meta ∷ trace_meta 5120 ∷ trace_meta 5200 ∷ [];
  entry_address = record {
    size = 12;
    collisions = 0;
    count = 0;
    entries = replicate 12 empty_entry;
  };
  exec_count = replicate 4 0;
  trace_cache_next = 5300;
  trace_id = 6;
  active_trace_id = 6;
  cc_links = record { free_list = none; size = 2; pool = replicate 2 null_entry };
}

full_thread-Sized : Sized small full_thread
full_thread-Sized = record {
  cells = refl;
  reserve = omega arith;
  links = omega arith;
  metas = omega arith;
}

allocate_bb_lem_example : Returns (allocate_bb small full_thread) λ (bb, t').
    (1 ≤ bb)
    × (bb < 3)
    × (t'.free_block ≡ suc bb)
    × (3 < 3 → bb ≡ 3)
    × (3 ≤ 3 → (bb ≡ 1) × Emptied small 2 t')
    × ((i : ℕ)
        → i < 1
        → let next = suc bb + i in
          allocate_bb_overflow small (record t' { free_block = next })
          ≡ ok (next, record t' { free_block = suc next }))
allocate_bb_lem_example =
    allocate_bb_lem small 2 full_thread full_thread-Sized (omega arith) (omega arith)

fragments-Ordered : Ordered full_thread 4 5
fragments-Ordered i j first order last = elim (Bool-cases (i == j)) [
  | inl same ↦ let e : j ≡ i = ground arith in rw e (omega arith)
  | inr other ↦
      let low : i ≡ 4 = ground (arith, other) in
      let high : j ≡ 5 = ground (arith, other) in rw (low, high) (omega arith)
]

addr_to_fragment_id_lem_example :
    Returns (addr_to_fragment_id small full_thread 5150) (Holds full_thread 5 5150)
addr_to_fragment_id_lem_example =
    addr_to_fragment_id_lem small full_thread 5150 (omega arith) (omega arith) (omega arith)
      (omega arith) (omega arith) fragments-Ordered (omega arith)

abbrev steady : Os
steady = record {
  dup = λ n fd. pos 7;
  lock = λ n. pos 0;
  unlock = λ n. pos 0;
  mutex_init = λ n. pos 0;
}

steady-Works : Works steady
steady-Works = record { lock_works = λ n. refl; unlock_works = λ n. refl; dup_works = λ n k. refl }

abbrev one_range : State
one_range = record {
  mem_size = 2;
  entry_count = 1;
  entries =
      record { start = 100; end = 200; fd = minus_one }
      ∷ record { start = 0; end = 0; fd = minus_one }
      ∷ [];
  calls = 0;
  closed = [];
}

one_range-IsValid : IsValid one_range
unfolding count_of tally
one_range-IsValid = record { room = omega arith; sized = refl; proper = refl }

abbrev process : Process
process = record { exec_allocs = one_range; current_thread = full_thread }

notify_vm_op_unmap_example :
    Returns (notify_vm_op steady small process VmOp.vm_unmap 100 100 0 minus_one) λ q.
      IsValid q.exec_allocs
      × ((a : ℕ) → mult a q.exec_allocs ≡ (if within 100 200 a then 0 else mult a one_range))
      × (0 < count_of (hits 100 200) one_range → Emptied small 2 q.current_thread)
      × (count_of (hits 100 200) one_range ≡ 0 → q.current_thread ≡ full_thread)
unfolding count_of tally
notify_vm_op_unmap_example =
    notify_vm_op_unmap steady small 2 process 100 100 0 minus_one steady-Works (omega arith)
      (omega arith) one_range-IsValid refl (omega arith) full_thread-Sized

abbrev two_threads : Registry
two_threads = record {
  threads = some 8;
  next = λ x. if x == 8 then some 9 else none;
  delivered = [];
}

abbrev mutex : Mutex
mutex = record { lock = pos 0; unlock = pos 0 }

unregister_thread_lem_example :
    Returns (unregister_thread 3 mutex two_threads 9 false) (λ (status, after).
      (is_in 9 (8 ∷ 9 ∷ []) ≡ true
        → (status ≡ pos 0)
          × Chain after.next after.threads (without 9 (8 ∷ 9 ∷ []))
          × (after.delivered ≡ Callback.post_thread 9 ∷ []))
      × (is_in 9 (8 ∷ 9 ∷ []) ≡ false → (status ≡ minus_one) × (after ≡ two_threads)))
    × (is_in 9 (8 ∷ 9 ∷ []) ≡ false
        → Returns
            (register_thread mutex two_threads 9 false)
            λ (status, after). (status ≡ pos 0) × Chain after.next after.threads (9 ∷ 8 ∷ 9 ∷ []))
unfolding is_in
unregister_thread_lem_example =
    unregister_thread_lem (9 ∷ []) 3 mutex two_threads 9 8 false (refl, refl, (refl, refl, refl))
      (omega arith) refl refl

-- The same thread with two blocks less in use.
abbrev new_thread : Thread
new_thread = record full_thread { free_block = 1 }

new_thread-IsValid : Lookup.IsValid 2 new_thread.entry_address
new_thread-IsValid = record {
  sized = refl;
  large = omega arith;
  no_gap = λ i j h held p q.
      absurd (held (ap (λ (e : HashEntry). e.key) (get_or-replicate 12 i empty_entry)));
}

lookup_or_stub_lem_example : Returns (lookup_or_stub small 2 new_thread 4) λ (address, t').
    (address ≡ 4352)
    × ((meta_at t' 1).exit_branch_type ≡ BranchType.stub)
    × Lookup.IsValid 2 t'.entry_address
    × ((k : ℕ) → k ≢ 0 → k ≢ 4 → cc_lookup 2 t' k ≡ cc_lookup 2 new_thread k)
    × (lookup_or_stub small 2 t' 4 ≡ ok (address, t'))
    × (lookup_or_scan_with_cached small 2 (λ t address bb. ok (0, t)) t' 4 ≡ (
        scan small 2 (λ t address bb. ok (0, t)) t' 4 (some 1) >>= λ (scanned, t₁).
        ok (scanned, false, t₁)))
unfolding cc_lookup hash_lookup lookup_loop get_index
lookup_or_stub_lem_example =
    lookup_or_stub_lem small 2 (λ t address bb. ok (0, t)) new_thread 4 0 new_thread-IsValid
      (λ e. omega (arith, e)) (omega arith) (omega arith) refl refl (omega arith) (omega arith)
      (λ e. omega (arith, e))
