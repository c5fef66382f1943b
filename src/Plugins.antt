-- ===== src/Plugins.antt =====
-- api/plugin_support.c, api/internal.c and the RISC-V parts of api/helpers.c that they use: plugins,
-- their callbacks, scratch registers and system calls. A callback is a number, 0 for none; what it
-- does to the context is a parameter, `call`. The parts of the union are kept side by side.
pub mod Callbacks
pub mod Scratch
pub mod Syscalls
pub mod Scanner
pub mod Delivery
pub mod Overflow
pub mod Leftover
pub mod Branches
pub mod Reserved
mod Tests
use mambo.Base.{
  ℕ, zero, suc, ◌+◌, ◌-◌, Bool, true, false, not, ◌||◌, Option, none, some, List, [], ◌∷◌, ltb, leb,
  ◌==◌, if◌then◌else◌, get_or, get_elem?, set, ℤ, pos, negsuc, Outcome, ok, abort,
}
use mambo.Riscv.Emit.{Writer}

abbrev pub max_plugin_no : ℕ
max_plugin_no = 10

abbrev pub callback_max_idx : ℕ
callback_max_idx = 15

abbrev pub plugin_reg : ℕ
plugin_reg = 0

abbrev pub pre_inst_c : ℕ
pre_inst_c = 1

abbrev pub pre_syscall_c : ℕ
pre_syscall_c = 7

abbrev pub post_syscall_c : ℕ
post_syscall_c = 8

-- `mambo_plugin`
pub record Plugin : Type 0 where
  pub cbs : List ℕ
  pub content : ℕ

-- `code_ctx`, with the write pointer and the code in `writer`; a null `stop` is none.
pub record CodeCtx : Type 0 where
  pub fragment_type : ℕ
  pub fragment_id : ℕ
  pub inst_type : ℕ
  pub read_address : ℕ
  pub inst : ℤ
  pub cond : ℕ
  pub writer : Writer
  pub data_p : ℕ
  pub pushed_regs : ℕ
  pub available_regs : ℕ
  pub plugin_pushed_reg_count : ℕ
  pub replace : Bool
  pub stop : Option Bool

-- `syscall_ctx`
pub record SyscallCtx : Type 0 where
  pub number : ℕ
  pub regs : List ℕ
  pub replace : Bool
  pub ret : ℕ

-- `mambo_context`
pub record Context : Type 0 where
  pub event_type : ℕ
  pub plugin_id : ℕ
  pub code : CodeCtx
  pub syscall : SyscallCtx

-- The plugins of `global_data`.
-- `behind` is what the memory behind the array reads as, by the index that is used.
pub record Global : Type 0 where
  pub free_plugin : ℕ
  pub plugins : List Plugin
  pub behind : ℕ → Plugin

abbrev pub no_plugin : Plugin
no_plugin = record { cbs = []; content = 0 }

unfoldable pub set_mambo_context : Context → ℕ → Context
set_mambo_context ctx event_type = record ctx { event_type = event_type }

unfoldable pub set_mambo_context_code :
    Context → ℕ → ℕ → ℕ → ℕ → ℤ → ℕ → ℕ → Writer → ℕ → Option Bool → Context
set_mambo_context_code ctx event_type fragment_type fragment_id inst_type inst cond read_address
      writer data_p stop =
    record (set_mambo_context ctx event_type) {
      code = record {
        fragment_type = fragment_type;
        fragment_id = fragment_id;
        inst_type = inst_type;
        read_address = read_address;
        inst = inst;
        cond = cond;
        writer = writer;
        data_p = data_p;
        pushed_regs = 0;
        available_regs = 0;
        plugin_pushed_reg_count = 0;
        replace = false;
        stop = stop;
      };
    }

unfoldable pub set_mambo_context_syscall : Context → ℕ → ℕ → List ℕ → Context
set_mambo_context_syscall ctx event_type number regs =
    let before = set_mambo_context ctx event_type in
    record before {
      syscall = record before.syscall { number = number; regs = regs; replace = false };
    }
