-- ===== src/Dbm.antt =====
-- dbm.c and dbm.h: the code cache of a thread and its block table, in a RISC-V build with traces and
-- without plugins. `Sizes` has the constants, of which the number of blocks of the trampolines is
-- made by the assembler. The scanner is a parameter; what makes caches coherent is left out.
pub mod Cache
pub mod Fragments
pub mod Vm
pub mod Threads
pub mod Flush
pub mod Search
pub mod Stubs
pub mod Unmap
pub mod Chain
pub mod Registry
mod Tests
use mambo.Base.{ℕ, ◌+◌, ◌-◌, ◌*◌, Bool, Option, none, List}
use mambo.CodeHash.{HashTable}
use mambo.LinkedList.{Pool}

pub data BranchType : Type 0 where
  unknown : BranchType
  stub : BranchType
  other : ℕ → BranchType

-- The other constants of `branch_type` have their values in the enumeration.
abbrev pub jal_riscv : BranchType
jal_riscv = BranchType.other 3

abbrev pub branch_riscv : BranchType
branch_riscv = BranchType.other 5

-- `dbm_code_cache_meta`, the fields that dbm.c and the dispatcher use; a null pointer of the
-- trampolines is 0.
pub record Meta : Type 0 where
  pub source_addr : ℕ
  pub tpc : ℕ
  pub exit_branch_type : BranchType
  pub actual_id : ℕ
  pub branch_cache_status : ℕ
  pub trampoline_addr : ℕ
  pub trampoline_slots_used : ℕ
  pub next_prediction_slot : ℕ
  pub number_of_predictions : ℕ
  pub linked_from : Option ℕ
  pub exit_branch_addr : ℕ
  pub branch_taken_addr : ℕ
  pub branch_skipped_addr : ℕ
  pub branch_condition : ℕ
  pub rs1 : ℕ
  pub rs2 : ℕ

-- `dbm_thread`; `blocks` is the address of `code_cache->blocks`.
pub record Thread : Type 0 where
  pub free_block : ℕ
  pub was_flushed : Bool
  pub blocks : ℕ
  pub code_cache_meta : List Meta
  pub entry_address : HashTable
  pub exec_count : List ℕ
  pub trace_cache_next : ℕ
  pub trace_id : ℕ
  pub active_trace_id : ℕ
  pub cc_links : Pool

pub record Sizes : Type 0 where
  pub code_cache_size : ℕ
  pub code_cache_overp : ℕ
  pub trampolines_size_bbs : ℕ
  pub hash_size : ℕ
  pub max_cc_links : ℕ
  pub max_branch_range : ℕ

abbrev pub dbm_sizes : ℕ → Sizes
dbm_sizes trampolines = record {
  code_cache_size = 55000;
  code_cache_overp = 512;
  trampolines_size_bbs = trampolines;
  hash_size = 0x7FFFF + 10;
  max_cc_links = 100000;
  max_branch_range = 16 * 1024 * 1024;
}

-- `sizeof(dbm_block)`
abbrev pub block_size : ℕ
block_size = 64 * 4

-- `code_cache->traces`
abbrev pub traces : Sizes → Thread → ℕ
traces c t = t.blocks + c.code_cache_size * block_size

abbrev pub trace_cache_size : Sizes → ℕ
trace_cache_size c = c.max_branch_range - c.code_cache_size * block_size

abbrev pub null_meta : Meta
null_meta = record {
  source_addr = 0;
  tpc = 0;
  exit_branch_type = BranchType.unknown;
  actual_id = 0;
  branch_cache_status = 0;
  trampoline_addr = 0;
  trampoline_slots_used = 0;
  next_prediction_slot = 0;
  number_of_predictions = 0;
  linked_from = none;
  exit_branch_addr = 0;
  branch_taken_addr = 0;
  branch_skipped_addr = 0;
  branch_condition = 0;
  rs1 = 0;
  rs2 = 0;
}
