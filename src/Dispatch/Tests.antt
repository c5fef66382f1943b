-- ===== src/Dispatch/Tests.antt =====
-- The dispatcher at a cache with a block that has free slots, between a jump and its target.
use mambo.Base.{ℕ, ◌≡◌, refl, Option, none, some, List, [], ◌∷◌, false, arith, inl, ok, replicate}
use mambo.CodeHash.{empty_entry}
use mambo.LinkedList.{null_entry}
use mambo.Riscv.Emit.{Instr}
use mambo.Dbm.{Meta, Thread, Sizes, null_meta}
use mambo.Dispatch.Trampolines.{
  riscv_try_jump_trampolines, riscv_find_trampoline_slot, slot_rounds, slot_round, usable,
  riscv_jal_can_reach,
}
use mambo.Dispatch.Slots.{Nearest, riscv_find_trampoline_slot_lem}
use mambo.Dispatch.Order.{Spaced, Clear}
use mambo.Dispatch.Chains.{Reaches, riscv_try_jump_trampolines_lem}

abbrev sizes : Sizes
sizes = record {
  code_cache_size = 4;
  code_cache_overp = 1;
  trampolines_size_bbs = 1;
  hash_size = 12;
  max_cc_links = 2;
  max_branch_range = 2048;
}

-- One slot of the block is used.
abbrev with_slots : Meta
with_slots = record null_meta { trampoline_addr = 0xC0000; trampoline_slots_used = 1 }

abbrev thread : Thread
thread = record {
  free_block = 2;
  was_flushed = false;
  blocks = 4096;
  code_cache_meta = null_meta ∷ with_slots ∷ [];
  entry_address = record {
    size = 12;
    collisions = 0;
    count = 0;
    entries = replicate 12 empty_entry;
  };
  exec_count = replicate 4 0;
  trace_cache_next = 5300;
  trace_id = 6;
  active_trace_id = 6;
  cc_links = record { free_list = none; size = 2; pool = replicate 2 null_entry };
}

slot_test : riscv_find_trampoline_slot sizes thread 0x1000 0x180000 ≡ some (1, 0xC0004)
unfolding riscv_find_trampoline_slot slot_rounds slot_round usable riscv_jal_can_reach
slot_test = refl

thread-Spaced : Spaced sizes thread
thread-Spaced i j h l ne there there' = absurd (ne (omega arith))

thread-Clear : Clear sizes thread 0x1000
thread-Clear i h there = let e : i ≡ 1 = omega arith in rw e (inl (omega arith))

riscv_try_jump_trampolines_lem_example :
    (result : Option (Thread × List (ℕ × Instr))) × (riscv_try_jump_trampolines sizes thread []
        0x1000 0x180000
      ≡ ok result)
    × Reaches sizes thread [] 0x1000 0x180000 result
riscv_try_jump_trampolines_lem_example =
    riscv_try_jump_trampolines_lem sizes thread [] 0x1000 0x180000 (omega arith) (omega arith)
      (omega arith) thread-Spaced thread-Clear

riscv_find_trampoline_slot_lem_example :
    Nearest thread 0x1000 0x180000 1 2 (riscv_find_trampoline_slot sizes thread 0x1000 0x180000)
riscv_find_trampoline_slot_lem_example =
    riscv_find_trampoline_slot_lem sizes thread 0x1000 0x180000 (omega arith)
