-- ===== src/Plugins/Tests.antt =====
-- Plugins: an empty table, a full one, and one whose first two plugins have callbacks.
use mambo.Base.{
  ℕ, zero, suc, ◌≤◌, ◌≡◌, ◌≢◌, ◌∙◌, refl, ap, Bool, true, ◌%◌, false, some, none, [], ◌∷◌, ltb,
  ◌==◌, if◌then◌else◌, length, get_or, replicate, get_or-replicate, get_or-replicate_lt, arith, inl,
  inr, Bool-cases, pos, Outcome, ok, ◌>>=◌,
}
use mambo.CodeHash.{empty_entry}
use mambo.LinkedList.{null_entry}
use mambo.RegList.{count_bits, count_loop}
use mambo.Dbm.{Sizes, null_meta}
use mambo.Plugins.{Plugin, CodeCtx, Context, Global, no_plugin, pre_syscall_c}
use mambo.Plugins.Callbacks.{
  mambo_register_plugin, mambo_register_cb, take_turn, mambo_deliver_callbacks_for_ctx,
}
use mambo.Plugins.Delivery.{IsValid, mambo_register_cb_lem}
use mambo.Plugins.Overflow.{mambo_register_plugin_overflow}
use mambo.Riscv.{word64}
use mambo.Riscv.Emit.{Instr}
use mambo.Riscv.Emit.Machine.{Cpu}
use mambo.Dispatch.Trampolines.{riscv_jal_can_reach}
use mambo.Dispatch.Machine.{Apart, fetch, steps}
use mambo.Plugins.Branches.{MamboBranch, emit_local_branch, emit_local_fcall}
use mambo.Plugins.Reserved.{emit_local_branch_lem}
use mambo.Plugins.Scratch.{with_code}
use mambo.Plugins.Scanner.{Delivery, write_rounds}
use mambo.Plugins.Leftover.{Pushes, riscv_scanner_deliver_callbacks_stops}

abbrev code : CodeCtx
code = record {
  fragment_type = 0;
  fragment_id = 1;
  inst_type = 3;
  read_address = 0x1000;
  inst = pos 5;
  cond = 0;
  writer = record { write_p = 0x8000; code = [] };
  data_p = 0x8100;
  pushed_regs = 0;
  available_regs = 0;
  plugin_pushed_reg_count = 0;
  replace = false;
  stop = none;
}

abbrev context : Context
context = record {
  event_type = pre_syscall_c;
  plugin_id = 0;
  code = code;
  syscall = record { number = 64; regs = replicate 32 9; replace = false; ret = 0 };
}

-- The callback 1 pushes x7; the others do nothing.
abbrev call : ℕ → Context → Outcome Context
call cb ctx =
    if cb == 1
    then ok (with_code ctx (record ctx.code { pushed_regs = 128; plugin_pushed_reg_count = 1 }))
    else ok ctx

abbrev unset : Plugin
unset = record { cbs = replicate 15 0; content = 0 }

abbrev empty_table : Global
empty_table = record { free_plugin = 0; plugins = replicate 10 unset; behind = λ i. unset }

get_or-replicate_above : (n i : ℕ) (a d : Plugin) → n ≤ i → get_or (replicate n a) i d ≡ d
get_or-replicate_above zero i a d h = refl
get_or-replicate_above (suc n) zero a d h = absurd (omega arith)
get_or-replicate_above (suc n) (suc i) a d h = get_or-replicate_above n i a d (omega arith)

empty_table-IsValid : IsValid empty_table
empty_table-IsValid = record {
  sized = refl;
  cbs_sized = λ i h. ap (λ (p : Plugin). length p.cbs) (get_or-replicate_lt 10 i unset no_plugin h);
  unused = λ i cb_id h. elim (Bool-cases (ltb i 10)) [
    | inl inside ↦
        ap (λ (p : Plugin). get_or p.cbs cb_id 0)
          (get_or-replicate_lt 10 i unset no_plugin (ground arith))
        ∙ get_or-replicate 15 cb_id 0
    | inr outside ↦
        ap (λ (p : Plugin). get_or p.cbs cb_id 0)
          (get_or-replicate_above 10 i unset no_plugin (ground arith))
  ];
}

mambo_register_cb_lem_example :
    (registered : Context) × (g' : Global) × ((mambo_register_plugin empty_table context).1
      ≡ some registered)
    × (mambo_register_cb (mambo_register_plugin empty_table context).0 registered 1 5 ≡ (pos 0, g'))
    × IsValid g'
    × ((ctx : Context)
        → ctx.event_type ≡ 1
        → mambo_deliver_callbacks_for_ctx call g' ctx ≡ (
            mambo_deliver_callbacks_for_ctx call empty_table ctx >>= λ c.
            call 5 (record c { plugin_id = 0 })))
    × ((ctx : Context)
        → ctx.event_type ≢ 1
        → mambo_deliver_callbacks_for_ctx call g' ctx
          ≡ mambo_deliver_callbacks_for_ctx call empty_table ctx)
mambo_register_cb_lem_example =
    mambo_register_cb_lem call empty_table context 1 5 empty_table-IsValid (omega arith)
      (omega arith) (λ e. omega (arith, e))

-- What stands behind the array: a plugin whose callbacks are all 9, and one that has none.
abbrev garbage : ℕ → Plugin
garbage i = record { cbs = replicate 15 9; content = 0 }

abbrev blank : ℕ → Plugin
blank i = unset

abbrev full_table : Global
full_table = record { free_plugin = 10; plugins = replicate 10 unset; behind = garbage }

mambo_register_plugin_overflow_example :
    let (g', registered) = mambo_register_plugin full_table context in
    (registered ≡ none)
    × (mambo_deliver_callbacks_for_ctx call g' context ≡ (
        mambo_deliver_callbacks_for_ctx call full_table context >>= λ c.
        take_turn call 10 pre_syscall_c c (garbage 10)))
mambo_register_plugin_overflow_example =
    mambo_register_plugin_overflow call full_table context context refl (omega arith) (omega arith)

in_reach : riscv_jal_can_reach 0x7fe0 0x8000 ≡ true
unfolding riscv_jal_can_reach
in_reach = refl

-- A branch over 0x20 bytes.
abbrev reserved : MamboBranch
reserved = record { loc = 0x7fe0 }

emit_local_branch_lem_example :
    ((emit_local_branch context reserved).0 ≡ pos 0)
    × (emit_local_fcall context reserved ≡ emit_local_branch context reserved)
    × ((emit_local_branch context reserved).1.code.writer.write_p ≡ 0x8000)
    × ((taken : Cpu → Instr → Bool) (cpu : Cpu)
        → cpu.pc ≡ 0x7fe0
        → (cpu' : Cpu) × (steps taken 1 (emit_local_branch context reserved).1.code.writer.code cpu
            ≡ some cpu')
          × (cpu'.pc ≡ 0x8000)
          × (cpu'.regs 1 ≡ 0x7fe4 % word64)
          × ((r : ℕ) → r ≢ 1 → cpu'.regs r ≡ cpu.regs r))
    × ((pc : ℕ)
        → Apart 0x7fe0 pc
        → fetch (emit_local_branch context reserved).1.code.writer.code pc ≡ fetch [] pc)
emit_local_branch_lem_example =
    emit_local_branch_lem context reserved (omega arith) (omega arith) in_reach

abbrev sizes : Sizes
sizes = record {
  code_cache_size = 4;
  code_cache_overp = 1;
  trampolines_size_bbs = 1;
  hash_size = 12;
  max_cc_links = 2;
  max_branch_range = 2048;
}

abbrev with_cb : ℕ → Plugin
with_cb cb = record { cbs = 0 ∷ cb ∷ replicate 13 0; content = 0 }

abbrev two_plugins : Global
two_plugins = record {
  free_plugin = 2;
  plugins = with_cb 1 ∷ with_cb 2 ∷ replicate 8 unset;
  behind = blank;
}

abbrev start : Delivery
start = record {
  thread = record {
    free_block = 1;
    was_flushed = false;
    blocks = 4096;
    code_cache_meta = replicate 4 null_meta;
    entry_address = record {
      size = 12;
      collisions = 0;
      count = 0;
      entries = replicate 12 empty_entry;
    };
    exec_count = replicate 4 0;
    trace_cache_next = 5300;
    trace_id = 6;
    active_trace_id = 6;
    cc_links = record { free_list = none; size = 2; pool = replicate 2 null_entry };
  };
  ctx = context;
  writer = record { write_p = 0x8000; code = [] };
  data_p = 0x8100;
  replaced = false;
}

one_pushed : count_bits 33 128 ≡ ok 1
unfolding count_bits count_loop
one_pushed = refl

call-Pushes : Pushes sizes call two_plugins 1 1 1
call-Pushes ctx = (_, 0, refl, one_pushed)

riscv_scanner_deliver_callbacks_stops_example :
    write_rounds sizes call two_plugins 1 1 true 2 0 start ≢ ok start
riscv_scanner_deliver_callbacks_stops_example =
    riscv_scanner_deliver_callbacks_stops sizes call two_plugins 1 1 0 0 (with_cb 1) (with_cb 2)
      start start refl refl (λ e. omega (arith, e)) (λ e. omega (arith, e)) call-Pushes
      (λ ctx. (ctx, refl, refl, refl))
