-- ===== src/Plugins/Callbacks.antt =====
-- api/plugin_support.c and api/internal.c: registration and delivery.
use mambo.Base.{
  ℕ, zero, suc, ◌≡◌, refl, Option, none, some, ltb, leb, ◌==◌, if◌then◌else◌, not, get_or,
  get_elem?, set, ℤ, pos, negsuc, Outcome, ok, assert, ◌>>=◌, ◌>>◌,
}
use mambo.Plugins.{
  Plugin, Context, Global, max_plugin_no, callback_max_idx, plugin_reg, no_plugin,
  set_mambo_context,
}

-- The index, or none for NULL. `tmp_ctx` is the static context.
unfoldable pub mambo_register_plugin : Global → Context → Global × Option Context
mambo_register_plugin g tmp_ctx =
    let index = g.free_plugin in
    let g₁ : Global = record g { free_plugin = suc index } in
    let registered = record (set_mambo_context tmp_ctx plugin_reg) { plugin_id = index } in
    if leb max_plugin_no index then (g₁, none) else (g₁, some registered)

abbrev pub cb_at : Plugin → ℕ → ℕ
cb_at plugin cb_idx = get_or plugin.cbs cb_idx 0

abbrev pub plugin_at : Global → ℕ → Plugin
plugin_at g i = get_or g.plugins i no_plugin

-- `__mambo_register_cb`
unfoldable pub mambo_register_cb : Global → Context → ℕ → ℕ → ℤ × Global
mambo_register_cb g ctx cb_idx cb =
    let p_id = ctx.plugin_id in
    let plugin = plugin_at g p_id in
    let changed = record plugin { cbs = set plugin.cbs cb_idx cb } in
    if leb callback_max_idx cb_idx
    then (negsuc 2, g)
    else if leb max_plugin_no p_id
    then (negsuc 0, g)
    else if not (cb_at plugin cb_idx == 0)
    then (negsuc 1, g)
    else (pos 0, record g { plugins = set g.plugins p_id changed })

unfoldable pub mambo_set_plugin_data : Global → Context → ℕ → ℤ × Global
mambo_set_plugin_data g ctx content =
    let p_id = ctx.plugin_id in
    let changed : Plugin = record (plugin_at g p_id) { content = content } in
    if leb g.free_plugin p_id
    then (negsuc 0, g)
    else (pos 0, record g { plugins = set g.plugins p_id changed })

unfoldable pub mambo_get_plugin_data : Global → Context → ℕ
mambo_get_plugin_data g ctx =
    let p_id = ctx.plugin_id in if leb g.free_plugin p_id then 0 else (plugin_at g p_id).content

-- `global_data.plugins[i]`, whose index is not compared with the size of the array.
unfoldable pub read_plugin : Global → ℕ → Plugin
read_plugin g i = elim (get_elem? g.plugins i) [ none ↦ g.behind i | some plugin ↦ plugin ]

pub read_plugin-inside :
    (g : Global) (i : ℕ) (plugin : Plugin)
    → get_elem? g.plugins i ≡ some plugin
    → read_plugin g i ≡ plugin
unfolding read_plugin
read_plugin-inside g i plugin there = rw (read_plugin, there) refl

pub read_plugin-behind :
    (g : Global) (i : ℕ) → get_elem? g.plugins i ≡ none → read_plugin g i ≡ g.behind i
unfolding read_plugin
read_plugin-behind g i beyond = rw (read_plugin, beyond) refl

-- A plugin's turn.
unfoldable pub take_turn :
    (ℕ → Context → Outcome Context) → ℕ → ℕ → Context → Plugin → Outcome Context
take_turn call i cb_id ctx plugin =
    let called = call (cb_at plugin cb_id) (record ctx { plugin_id = i }) in
    if cb_at plugin cb_id == 0 then ok ctx else called

module _ (call : ℕ → Context → Outcome Context) (g : Global) where
  unfoldable pub deliver_round : ℕ → ℕ → Context → Outcome Context
  deliver_round i cb_id ctx = take_turn call i cb_id ctx (read_plugin g i)

  unfoldable pub deliver_rounds : ℕ → ℕ → ℕ → Context → Outcome Context
  deliver_rounds zero i cb_id ctx = ok ctx
  deliver_rounds (suc left) i cb_id ctx =
      deliver_round i cb_id ctx >>= λ ctx₁. deliver_rounds left (suc i) cb_id ctx₁

  unfoldable pub mambo_deliver_callbacks_for_ctx : Context → Outcome Context
  mambo_deliver_callbacks_for_ctx ctx =
      let cb_id = ctx.event_type in
      assert (ltb cb_id callback_max_idx) >> deliver_rounds g.free_plugin 0 cb_id ctx

  unfoldable pub mambo_deliver_callbacks : ℕ → Context → Outcome Context
  mambo_deliver_callbacks cb_id ctx =
      let delivered = mambo_deliver_callbacks_for_ctx (set_mambo_context ctx cb_id) in
      if ltb 0 g.free_plugin then delivered else ok ctx
