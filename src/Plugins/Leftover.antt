-- ===== src/Plugins/Leftover.antt =====
-- The registers that one plugin has pushed stay in the context of the next.
use mambo.Base.{
  ℕ, suc, ◌-◌, ◌≡◌, ◌≢◌, ◌∙◌, refl, sym, ap, Bool, true, false, ◌&&◌, ◌||◌, some, leb, ◌==◌,
  get_elem?, arith, inl, inr, Bool-cases, ==_iff, Outcome, ok, abort, hang, assert, ◌>>=◌, ◌>>◌,
}
use mambo.RegList.{count_bits, count_loop}
use mambo.Riscv.Emit.Push.{riscv_pop}
use mambo.Dbm.{Sizes}
use mambo.Plugins.{Plugin, Context, Global}
use mambo.Plugins.Callbacks.{cb_at, read_plugin, read_plugin-inside}
use mambo.Plugins.Scratch.{emit_pop, with_code}
use mambo.Plugins.Scanner.{Delivery, after_write, write_round, write_rounds, riscv_check_free_space}

-- A chain of two calls that returns: the first has returned, and so has the second.
both_return :
    {A B : Type 0} {result : B} (rest : A → Outcome B) (first : Outcome A)
    → (first >>= rest) ≡ ok result
    → (given : A) × (rest given ≡ ok result) × (first ≡ ok given)
both_return rest hang ends = cc
both_return rest abort ends = cc
both_return rest (ok given) ends = (given, ends, refl)

assert-eq-ok :
    {B : Type 0} (b : Bool) (m : Outcome B) {r : B}
    → (assert b >> m) ≡ ok r
    → (b ≡ true) × (m ≡ ok r)
assert-eq-ok true m h = (refl, h)
assert-eq-ok false m h = cc

ok-injective : {A : Type 0} (a b : A) → ok a ≡ ok b → a ≡ b
ok-injective a b h = cc

-- A list that is not empty has been popped.
popped_lem :
    (ctx ctx₁ : Context) (n : ℕ)
    → count_bits 33 ctx.code.pushed_regs ≡ ok n
    → ctx.code.plugin_pushed_reg_count ≡ n
    → emit_pop ctx ctx.code.pushed_regs ≡ ok ctx₁
    → (ctx₁.code.pushed_regs ≡ ctx.code.pushed_regs) × (ctx₁.code.plugin_pushed_reg_count ≡ 0)
unfolding emit_pop
popped_lem ctx ctx₁ n counted all done =
    let body : (assert (leb n ctx.code.plugin_pushed_reg_count)
          >> (riscv_pop ctx.code.writer ctx.code.pushed_regs >>= λ writer. ok (
              with_code ctx (record ctx.code {
                plugin_pushed_reg_count = ctx.code.plugin_pushed_reg_count - n;
                writer = writer;
              }))))
        ≡ ok ctx₁ =
      rw (emit_pop, counted) at done in
    let (enough, popped) = assert-eq-ok _ _ body in
    let (writer, same, made) =
      both_return _ (riscv_pop ctx.code.writer ctx.code.pushed_regs) popped in
    let after : Context = with_code ctx (record ctx.code {
      plugin_pushed_reg_count = ctx.code.plugin_pushed_reg_count - n;
      writer = writer;
    }) in
    let result : after ≡ ctx₁ = ok-injective after ctx₁ same in
    let none_left : ctx.code.plugin_pushed_reg_count - n ≡ 0 = omega (arith, all) in
    (
      sym (ap (λ (x : Context). x.code.pushed_regs) result),
      sym (ap (λ (x : Context). x.code.plugin_pushed_reg_count) result) ∙ none_left,
    )

pushed_ne_zero : (regs n : ℕ) → count_bits 33 regs ≡ ok (suc n) → (regs == 0) ≡ false
unfolding count_bits count_loop
pushed_ne_zero regs n counted = elim (Bool-cases (regs == 0)) [
  | inl empty ↦
      let e = (==_iff regs 0).0 empty in
      let none_counted : count_bits 33 0 ≡ ok (suc n) = rw e at counted in cc
  | inr some_pushed ↦ some_pushed
]

-- What a plugin leaves that has pushed registers.
abbrev Leftover : ℕ → ℕ → Delivery → Type 0
Leftover pushed_regs n d =
    (d.ctx.code.pushed_regs ≡ pushed_regs)
    × (d.ctx.code.plugin_pushed_reg_count ≡ 0)
    × (count_bits 33 pushed_regs ≡ ok (suc n))

module _ (c : Sizes) (call : ℕ → Context → Outcome Context) (g : Global)
    (cb_id basic_block : ℕ) where
  after_write-Leftover :
      (d d₁ : Delivery) (ctx : Context) (n : ℕ)
      → count_bits 33 ctx.code.pushed_regs ≡ ok (suc n)
      → (ctx.code.pushed_regs == 0) ≡ false
      → after_write c call g cb_id basic_block true d ctx ≡ ok d₁
      → Leftover ctx.code.pushed_regs n d₁
  unfolding after_write
  after_write-Leftover d d₁ ctx n counted some_pushed done =
      let body = rw (after_write, counted, some_pushed) at done in
      let (all, rest) = assert-eq-ok _ _ body in
      let (ctx₁, rest₁, popped) = both_return _ (emit_pop ctx ctx.code.pushed_regs) rest in
      let (room, same, found) =
        both_return _
          (riscv_check_free_space c d.thread ctx₁.code.writer ctx₁.code.data_p 56 basic_block)
          rest₁ in
      let after : Delivery = record {
        thread = room.0;
        ctx = ctx₁;
        writer = room.1;
        data_p = room.2;
        replaced = d.replaced || (ctx.code.replace && (cb_id == 1));
      } in
      let result : after ≡ d₁ = ok-injective after d₁ same in
      let equal : ctx.code.plugin_pushed_reg_count ≡ suc n = ground arith in
      let (kept, none_left) = popped_lem ctx ctx₁ (suc n) counted equal popped in
      (
        sym (ap (λ (x : Delivery). x.ctx.code.pushed_regs) result) ∙ kept,
        sym (ap (λ (x : Delivery). x.ctx.code.plugin_pushed_reg_count) result) ∙ none_left,
        counted,
      )

  -- The first of two plugins: its callback returns, having pushed registers.
  abbrev pub Pushes : ℕ → Type 0
  Pushes cb =
      (ctx : Context)
      → (ctx' : Context) × (n : ℕ) × (call cb ctx ≡ ok ctx')
        × (count_bits 33 ctx'.code.pushed_regs ≡ ok (suc n))

  -- The second: its callback returns, and pushes nothing.
  abbrev pub Keeps : ℕ → Type 0
  Keeps cb =
      (ctx : Context)
      → (ctx' : Context) × (call cb ctx ≡ ok ctx')
        × (ctx'.code.pushed_regs ≡ ctx.code.pushed_regs)
        × (ctx'.code.plugin_pushed_reg_count ≡ ctx.code.plugin_pushed_reg_count)

  first_round :
      (i : ℕ) (plugin : Plugin) (d d₁ : Delivery)
      → cb_at plugin cb_id ≢ 0
      → Pushes (cb_at plugin cb_id)
      → write_round c call g cb_id basic_block true i d plugin ≡ ok d₁
      → (pushed_regs n : ℕ) × Leftover pushed_regs n d₁
  unfolding write_round
  first_round i plugin d d₁ set pushes done =
      let called : (cb_at plugin cb_id == 0) ≡ false = ground arith in
      let before =
        with_code (record d.ctx { plugin_id = i })
          (record d.ctx.code {
            writer = d.writer;
            data_p = d.data_p;
            replace = false;
            available_regs = d.ctx.code.pushed_regs;
          }) in
      let (ctx', n, returned, counted) = pushes before in
      let body = rw (write_round, called, returned) at done in
      let pushed : (ctx'.code.pushed_regs == 0) ≡ false =
        pushed_ne_zero ctx'.code.pushed_regs n counted in
      (ctx'.code.pushed_regs, n, after_write-Leftover d d₁ ctx' n counted pushed body)

  second_round :
      (i : ℕ) (plugin : Plugin) (d : Delivery) (pushed_regs n : ℕ)
      → cb_at plugin cb_id ≢ 0
      → Keeps (cb_at plugin cb_id)
      → Leftover pushed_regs n d
      → write_round c call g cb_id basic_block true i d plugin ≡ abort
  unfolding write_round after_write
  second_round i plugin d pushed_regs n set keeps (same, zero_left, counted) =
      let called : (cb_at plugin cb_id == 0) ≡ false = ground arith in
      let before =
        with_code (record d.ctx { plugin_id = i })
          (record d.ctx.code {
            writer = d.writer;
            data_p = d.data_p;
            replace = false;
            available_regs = d.ctx.code.pushed_regs;
          }) in
      let (ctx', returned, kept, as_many) = keeps before in
      let recounted : count_bits 33 ctx'.code.pushed_regs ≡ ok (suc n) =
        ap (count_bits 33) (kept ∙ same) ∙ counted in
      let none_left : ctx'.code.plugin_pushed_reg_count ≡ 0 = as_many ∙ zero_left in
      let differs : (suc n == ctx'.code.plugin_pushed_reg_count) ≡ false = ground arith in
      rw (called, returned, recounted, differs) refl

  -- If the callback of one plugin returns with registers pushed, and that of the next returns without
  -- pushing any, then the rounds of riscv_scanner_deliver_callbacks from the first on, for an event of
  -- which both are told and where they may write, never return a result, whether or not there is
  -- room for the code.
  pub riscv_scanner_deliver_callbacks_stops :
      (i left : ℕ) (first second : Plugin) (d d' : Delivery)
      → get_elem? g.plugins i ≡ some first
      → get_elem? g.plugins (suc i) ≡ some second
      → cb_at first cb_id ≢ 0
      → cb_at second cb_id ≢ 0
      → Pushes (cb_at first cb_id)
      → Keeps (cb_at second cb_id)
      → write_rounds c call g cb_id basic_block true (suc (suc left)) i d ≢ ok d'
  unfolding write_rounds
  riscv_scanner_deliver_callbacks_stops i left first second d d' here there set set' pushes keeps
        done =
      let round = write_round c call g cb_id basic_block true i d (read_plugin g i) in
      let (d₁, rest, first_done) = both_return _ round done in
      let (pushed_regs, n, left_over) =
        first_round i first d d₁ set pushes
          (rw (read_plugin-inside g i first here) at first_done) in
      let stopped = second_round (suc i) second d₁ pushed_regs n set' keeps left_over in
      let refused = rw (read_plugin-inside g (suc i) second there, stopped) at rest in cc
