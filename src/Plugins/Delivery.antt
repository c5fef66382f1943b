-- ===== src/Plugins/Delivery.antt =====
-- A plugin that is registered and sets a callback has it called after those of the earlier plugins.
use mambo.Base.{
  ℕ, zero, suc, ◌+◌, ◌≤◌, ◌<◌, ◌≡◌, ◌≢◌, ◌∙◌, refl, sym, ap, true, false, Option, none, some, List,
  [], ◌∷◌, ltb, leb, ◌==◌, length, length-set, get_elem?, set, get_or-set_self, get_or-set_ne,
  get_elem?-eq-get_or, arith, inl, inr, Bool-cases, pos, Outcome, ok, abort, hang, ◌>>=◌,
}
use mambo.Plugins.{
  Plugin, Context, Global, max_plugin_no, callback_max_idx, no_plugin, set_mambo_context,
}
use mambo.Plugins.Callbacks.{
  mambo_register_plugin, mambo_register_cb, cb_at, plugin_at, read_plugin, take_turn, deliver_round,
  deliver_rounds, mambo_deliver_callbacks_for_ctx,
}

>>=_assoc :
    {A B C : Type 0} (m : Outcome A) (f : A → Outcome B) (g : B → Outcome C)
    → ((m >>= f) >>= g) ≡ (m >>= λ a. f a >>= g)
>>=_assoc (ok a) f g = refl
>>=_assoc abort f g = refl
>>=_assoc hang f g = refl

>>=_ok : {A : Type 0} (m : Outcome A) → (m >>= λ a. ok a) ≡ m
>>=_ok (ok a) = refl
>>=_ok abort = refl
>>=_ok hang = refl

pub >>=_cong :
    {A B : Type 0} (m : Outcome A) (f g : A → Outcome B)
    → ((a : A) → f a ≡ g a)
    → (m >>= f) ≡ (m >>= g)
>>=_cong (ok a) f g same = same a
>>=_cong abort f g same = refl
>>=_cong hang f g same = refl

-- The arrays have their sizes, and the places that are not taken have no callback.
pub record IsValid (g : Global) : Type 0 where
  pub sized : length g.plugins ≡ max_plugin_no
  pub cbs_sized : (i : ℕ) → i < max_plugin_no → length (plugin_at g i).cbs ≡ callback_max_idx
  pub unused : (i cb_id : ℕ) → g.free_plugin ≤ i → cb_at (plugin_at g i) cb_id ≡ 0

get_elem?-set_ne :
    {A : Type 0} (xs : List A) (i j : ℕ) (v : A) → i ≢ j → get_elem? (set xs i v) j ≡ get_elem? xs j
get_elem?-set_ne [] i j v h = refl
get_elem?-set_ne (x ∷ xs) zero zero v h = absurd (h refl)
get_elem?-set_ne (x ∷ xs) zero (suc j) v h = refl
get_elem?-set_ne (x ∷ xs) (suc i) zero v h = refl
get_elem?-set_ne (x ∷ xs) (suc i) (suc j) v h = get_elem?-set_ne xs i j v (λ e. h (ap suc e))

-- The plugin `id` with one more callback, and the counter behind it.
abbrev added : Global → ℕ → ℕ → Global
added g cb_idx cb =
    let plugin = plugin_at g g.free_plugin in
    record {
      free_plugin = suc g.free_plugin;
      plugins = set g.plugins g.free_plugin (record plugin { cbs = set plugin.cbs cb_idx cb });
      behind = g.behind;
    }

module _ (g : Global) (valid : IsValid g) (room : g.free_plugin < max_plugin_no) where
  register-added :
      (tmp : Context) (cb_idx cb : ℕ)
      → cb_idx < callback_max_idx
      → let registered : Context = record tmp { event_type = 0; plugin_id = g.free_plugin } in
        (mambo_register_plugin g tmp
          ≡ (record g { free_plugin = suc g.free_plugin }, some registered))
        × (mambo_register_cb (record g { free_plugin = suc g.free_plugin }) registered cb_idx cb
            ≡ (pos 0, added g cb_idx cb))
  unfolding mambo_register_plugin mambo_register_cb set_mambo_context
  register-added tmp cb_idx cb h =
      let small : leb 10 g.free_plugin ≡ false = ground arith in
      let known : leb 15 cb_idx ≡ false = ground arith in
      let unset = valid.unused g.free_plugin cb_idx (omega arith) in
      (rw small refl, rw (known, small, unset) refl)

  changed : ℕ → ℕ → Plugin
  changed cb_idx cb =
      let plugin = plugin_at g g.free_plugin in record plugin { cbs = set plugin.cbs cb_idx cb }

  added-new : (cb_idx cb : ℕ) → plugin_at (added g cb_idx cb) g.free_plugin ≡ changed cb_idx cb
  unfolding changed
  added-new cb_idx cb =
      get_or-set_self g.plugins g.free_plugin (changed cb_idx cb) no_plugin
        (omega (arith, valid.sized))

  added-old :
      (cb_idx cb i : ℕ) → g.free_plugin ≢ i → plugin_at (added g cb_idx cb) i ≡ plugin_at g i
  unfolding changed
  added-old cb_idx cb i h = get_or-set_ne g.plugins g.free_plugin i (changed cb_idx cb) no_plugin h

  changed-cb : (cb_idx cb : ℕ) → cb_idx < callback_max_idx → cb_at (changed cb_idx cb) cb_idx ≡ cb
  unfolding changed
  changed-cb cb_idx cb h =
      get_or-set_self (plugin_at g g.free_plugin).cbs cb_idx cb 0
        (omega (arith, valid.cbs_sized g.free_plugin room))

  changed-other : (cb_idx cb other : ℕ) → cb_idx ≢ other → cb_at (changed cb_idx cb) other ≡ 0
  unfolding changed
  changed-other cb_idx cb other h =
      get_or-set_ne (plugin_at g g.free_plugin).cbs cb_idx other cb 0 h
      ∙ valid.unused g.free_plugin other (omega arith)

  added-IsValid : (cb_idx cb : ℕ) → IsValid (added g cb_idx cb)
  unfolding changed
  added-IsValid cb_idx cb = record {
    sized = length-set g.plugins g.free_plugin (changed cb_idx cb) ∙ valid.sized;
    cbs_sized = λ i h. elim (Bool-cases (g.free_plugin == i)) [
      | inl same ↦
          let e : i ≡ g.free_plugin = ground arith in
          rw (e, added-new cb_idx cb)
            (length-set (plugin_at g g.free_plugin).cbs cb_idx cb
              ∙ valid.cbs_sized g.free_plugin room)
      | inr other ↦ rw (added-old cb_idx cb i (ground arith)) (valid.cbs_sized i h)
    ];
    unused =
        λ i cb_id h. rw (added-old cb_idx cb i (omega arith)) (valid.unused i cb_id (omega arith));
  }

-- What is read at an index, by what the array has there.
abbrev at_index : Global → ℕ → Option Plugin → Plugin
at_index g i none = g.behind i
at_index g i (some plugin) = plugin

module _ (call : ℕ → Context → Outcome Context) where
  -- The last plugin's turn is the last.
  pub deliver_rounds-last :
      (g : Global) (left i cb_id : ℕ) (ctx : Context)
      → deliver_rounds call g (suc left) i cb_id ctx
        ≡ (deliver_rounds call g left i cb_id ctx >>= deliver_round call g (i + left) cb_id)
  unfolding deliver_rounds
  deliver_rounds-last g zero i cb_id ctx =
      let e : i + 0 ≡ i = omega arith in rw e (>>=_ok (deliver_round call g i cb_id ctx))
  deliver_rounds-last g (suc left) i cb_id ctx =
      let e : i + suc left ≡ suc i + left = omega arith in
      let first = deliver_round call g i cb_id ctx in
      let last = deliver_round call g (suc i + left) cb_id in
      rw e (
        >>=_cong first _ _ (λ c. deliver_rounds-last g left (suc i) cb_id c)
        ∙ sym (>>=_assoc first (λ c. deliver_rounds call g left (suc i) cb_id c) last))

  pub deliver_rounds-agree :
      (g g' : Global) (left i cb_id : ℕ) (ctx : Context)
      → ((j : ℕ) (c : Context)
          → j < i + left
          → deliver_round call g j cb_id c ≡ deliver_round call g' j cb_id c)
      → deliver_rounds call g left i cb_id ctx ≡ deliver_rounds call g' left i cb_id ctx
  unfolding deliver_rounds
  deliver_rounds-agree g g' zero i cb_id ctx same = refl
  deliver_rounds-agree g g' (suc left) i cb_id ctx same = rw (same i ctx (omega arith)) (
      >>=_cong (deliver_round call g' i cb_id ctx) _ _
        (λ c. deliver_rounds-agree g g' left (suc i) cb_id c (λ j d h. same j d (omega arith))))

  module _ (g : Global) (valid : IsValid g) (room : g.free_plugin < max_plugin_no) where
    earlier_rounds :
        (cb_idx cb j cb_id : ℕ) (c : Context)
        → j < g.free_plugin
        → deliver_round call (added g cb_idx cb) j cb_id c ≡ deliver_round call g j cb_id c
    unfolding deliver_round read_plugin changed
    earlier_rounds cb_idx cb j cb_id c h =
        ap (λ o. take_turn call j cb_id c (at_index g j o))
          (get_elem?-set_ne g.plugins g.free_plugin j (changed g valid room cb_idx cb)
            (λ e. omega (arith, e)))

    last_round :
        (cb_idx cb cb_id : ℕ) (c : Context)
        → deliver_round call (added g cb_idx cb) g.free_plugin cb_id c
          ≡ take_turn call g.free_plugin cb_id c (changed g valid room cb_idx cb)
    unfolding deliver_round read_plugin changed
    last_round cb_idx cb cb_id c =
        let plugins = (added g cb_idx cb).plugins in
        let size : length plugins ≡ length g.plugins =
          length-set g.plugins g.free_plugin (changed g valid room cb_idx cb) in
        ap (λ o. take_turn call g.free_plugin cb_id c (at_index g g.free_plugin o))
          (get_elem?-eq-get_or plugins g.free_plugin no_plugin (omega (arith, size, valid.sized))
            ∙ ap some (added-new g valid room cb_idx cb))

    same_rounds :
        (cb_idx cb cb_id : ℕ) (c : Context)
        → deliver_rounds call (added g cb_idx cb) (suc g.free_plugin) 0 cb_id c ≡ (
            deliver_rounds call g g.free_plugin 0 cb_id c >>= λ c₁.
            take_turn call g.free_plugin cb_id c₁ (changed g valid room cb_idx cb))
    same_rounds cb_idx cb cb_id c =
        let n = g.free_plugin in
        let e : 0 + n ≡ n = omega arith in
        deliver_rounds-last (added g cb_idx cb) n 0 cb_id c
        ∙ ap (λ m. m >>= deliver_round call (added g cb_idx cb) (0 + n) cb_id)
            (deliver_rounds-agree (added g cb_idx cb) g n 0 cb_id c
              (λ j d h. earlier_rounds cb_idx cb j cb_id d (omega arith)))
        ∙ rw e (>>=_cong (deliver_rounds call g n 0 cb_id c) _ _ (last_round cb_idx cb cb_id))

    turn-new :
        (cb_idx cb cb_id : ℕ) (c : Context)
        → cb_idx < callback_max_idx
        → cb ≢ 0
        → cb_id ≡ cb_idx
        → take_turn call g.free_plugin cb_id c (changed g valid room cb_idx cb)
          ≡ call cb (record c { plugin_id = g.free_plugin })
    unfolding take_turn
    turn-new cb_idx cb cb_id c known set e =
        let nonzero : (cb == 0) ≡ false = ground arith in
        rw (e, changed-cb g valid room cb_idx cb known, nonzero) refl

    turn-other :
        (cb_idx cb cb_id : ℕ) (c : Context)
        → cb_id ≢ cb_idx
        → take_turn call g.free_plugin cb_id c (changed g valid room cb_idx cb) ≡ ok c
    unfolding take_turn
    turn-other cb_idx cb cb_id c h =
        rw (changed-other g valid room cb_idx cb cb_id (λ e. h (sym e))) refl

  -- For arrays of their sizes and a place that is free: mambo_register_plugin gives a context, with
  -- which the registration of a callback for an event succeeds and keeps the arrays as they must
  -- be. From then on a delivery of that event does what it did before and then calls the callback,
  -- as the new plugin; a delivery of another event does what it did before.
  pub mambo_register_cb_lem :
      (g : Global) (tmp : Context) (cb_idx cb : ℕ)
      → IsValid g
      → g.free_plugin < max_plugin_no
      → cb_idx < callback_max_idx
      → cb ≢ 0
      → (registered : Context) × (g' : Global) × ((mambo_register_plugin g tmp).1 ≡ some registered)
        × (mambo_register_cb (mambo_register_plugin g tmp).0 registered cb_idx cb ≡ (pos 0, g'))
        × IsValid g'
        × ((ctx : Context)
            → ctx.event_type ≡ cb_idx
            → mambo_deliver_callbacks_for_ctx call g' ctx ≡ (
                mambo_deliver_callbacks_for_ctx call g ctx >>= λ c.
                call cb (record c { plugin_id = g.free_plugin })))
        × ((ctx : Context)
            → ctx.event_type ≢ cb_idx
            → mambo_deliver_callbacks_for_ctx call g' ctx
              ≡ mambo_deliver_callbacks_for_ctx call g ctx)
  unfolding mambo_deliver_callbacks_for_ctx
  mambo_register_cb_lem g tmp cb_idx cb valid room known set =
      let (made, done) = register-added g valid room tmp cb_idx cb known in
      let turns = λ (ctx : Context). same_rounds g valid room cb_idx cb ctx.event_type ctx in
      (
        record tmp { event_type = 0; plugin_id = g.free_plugin },
        added g cb_idx cb,
        rw made refl,
        rw made done,
        added-IsValid g valid room cb_idx cb,
        λ ctx e.
            let below : ltb ctx.event_type callback_max_idx ≡ true = ground arith in
            rw below (
              turns ctx
              ∙ >>=_cong (deliver_rounds call g g.free_plugin 0 ctx.event_type ctx) _ _
                  (λ c. turn-new g valid room cb_idx cb ctx.event_type c known set e)),
        λ ctx e. elim (Bool-cases (ltb ctx.event_type callback_max_idx)) [
          | inl below ↦
              let m = deliver_rounds call g g.free_plugin 0 ctx.event_type ctx in
              rw below (
                turns ctx
                ∙ >>=_cong m _ _ (λ c. turn-other g valid room cb_idx cb ctx.event_type c e)
                ∙ >>=_ok m)
          | inr above ↦ rw above refl
        ],
      )
