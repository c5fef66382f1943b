-- ===== src/Plugins/Scanner.antt =====
-- arch/riscv/scanner_riscv.c: room in the code cache, and the delivery of callbacks that write code.
-- The functions that plugins watch, which are called before a block, are left out.
use mambo.Base.{
  ℕ, zero, suc, ◌+◌, ◌*◌, Bool, false, not, ◌&&◌, ◌||◌, Option, none, some, ltb, leb, ◌==◌,
  if◌then◌else◌, ℤ, Outcome, ok, abort, assert, ◌>>=◌, ◌>>◌,
}
use mambo.RegList.{count_bits}
use mambo.Riscv.Emit.{Writer, riscv_jal_helper}
use mambo.Dbm.{Thread, Sizes, block_size}
use mambo.Dbm.Cache.{meta_at, put_meta, allocate_bb_overflow}
use mambo.Plugins.{Plugin, Context, Global, pre_inst_c, set_mambo_context_code}
use mambo.Plugins.Callbacks.{cb_at, read_plugin}
use mambo.Plugins.Scratch.{with_code, emit_pop}

abbrev min_fspace : ℕ
min_fspace = 56

-- `*write_p` is that of the writer; the result has `*data_p` too.
unfoldable pub riscv_check_free_space :
    Sizes → Thread → Writer → ℕ → ℕ → ℕ → Outcome (Thread × Writer × ℕ)
riscv_check_free_space c t w data_p size cur_block =
    let moved = allocate_bb_overflow c t >>= λ (basic_block, t₁).
    let t₂ = put_meta t₁ basic_block (record (meta_at t₁ basic_block) { actual_id = cur_block }) in
    let target = t₂.blocks + basic_block * block_size in
    let jumped : Outcome Writer = elim (riscv_jal_helper w target 0) [
      | none ↦ abort
      | some w₁ ↦ ok (record w₁ { write_p = target })
    ] in
    (if not (target == data_p) then jumped else ok w) >>= λ w₂. ok (t₂, w₂, target + block_size) in
    if leb data_p (w.write_p + size) then moved else ok (t, w, data_p)

-- What the loop has: the thread, the context, `write_p` with the code, `data_p` and `replaced`.
pub record Delivery : Type 0 where
  pub thread : Thread
  pub ctx : Context
  pub writer : Writer
  pub data_p : ℕ
  pub replaced : Bool

module _ (c : Sizes) (call : ℕ → Context → Outcome Context) (g : Global) (cb_id basic_block : ℕ)
    (allow_write : Bool) where
  -- After a callback that may write.
  unfoldable pub after_write : Delivery → Context → Outcome Delivery
  after_write d ctx =
      let popped = emit_pop ctx ctx.code.pushed_regs in
      count_bits 33 ctx.code.pushed_regs >>= λ count.
      assert (count == ctx.code.plugin_pushed_reg_count)
      >> ((if not (ctx.code.pushed_regs == 0) then popped else ok ctx) >>= λ ctx₁.
          riscv_check_free_space c d.thread ctx₁.code.writer ctx₁.code.data_p min_fspace basic_block
          >>= λ (t, w, data_p). ok (record {
            thread = t;
            ctx = ctx₁;
            writer = w;
            data_p = data_p;
            replaced = d.replaced || (ctx.code.replace && (cb_id == pre_inst_c));
          }))

  unfoldable pub after_read : Delivery → Context → Outcome Delivery
  after_read d ctx =
      assert (ctx.code.writer.write_p == d.writer.write_p)
      >> (assert (ctx.code.data_p == d.data_p) >> ok (record d { ctx = ctx }))

  unfoldable pub write_round : ℕ → Delivery → Plugin → Outcome Delivery
  write_round i d plugin =
      let cb = cb_at plugin cb_id in
      let before =
        with_code (record d.ctx { plugin_id = i })
          (record d.ctx.code {
            writer = d.writer;
            data_p = d.data_p;
            replace = false;
            available_regs = d.ctx.code.pushed_regs;
          }) in
      let called =
        call cb before >>= λ ctx. if allow_write then after_write d ctx else after_read d ctx in
      if cb == 0 then ok d else called

  unfoldable pub write_rounds : ℕ → ℕ → Delivery → Outcome Delivery
  write_rounds zero i d = ok d
  write_rounds (suc left) i d =
      write_round i d (read_plugin g i) >>= λ d₁. write_rounds left (suc i) d₁

  -- `ctx` is the fresh local context; 3 is RISCV_INST and AL is 0.
  unfoldable pub riscv_scanner_deliver_callbacks :
      Context → Thread → ℕ → ℤ → Writer → ℕ → ℕ → Option Bool → Outcome Delivery
  riscv_scanner_deliver_callbacks ctx t read_address inst w data_p type stop =
      let start =
        set_mambo_context_code ctx cb_id type basic_block 3 inst 0 read_address w data_p stop in
      let d : Delivery = record {
        thread = t;
        ctx = start;
        writer = w;
        data_p = data_p;
        replaced = false;
      } in
      let delivered = write_rounds g.free_plugin 0 d in
      if ltb 0 g.free_plugin then delivered else ok d
