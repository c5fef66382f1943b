-- ===== src/Plugins/Overflow.antt =====
-- More plugins than the array has places for.
use mambo.Base.{
  ℕ, zero, suc, ◌+◌, ◌≤◌, ◌<◌, ◌≡◌, ◌∙◌, refl, ap, true, none, List, [], ◌∷◌, ltb, leb, length,
  get_elem?, arith, Outcome, ◌>>=◌,
}
use mambo.Plugins.{Context, Global, max_plugin_no, callback_max_idx}
use mambo.Plugins.Callbacks.{
  mambo_register_plugin, read_plugin, read_plugin-behind, take_turn, deliver_round, deliver_rounds,
  mambo_deliver_callbacks_for_ctx,
}
use mambo.Plugins.Delivery.{deliver_rounds-last, deliver_rounds-agree, >>=_cong}

get_elem?-beyond : {A : Type 0} (xs : List A) (i : ℕ) → length xs ≤ i → get_elem? xs i ≡ none
get_elem?-beyond [] i h = refl
get_elem?-beyond (x ∷ xs) zero h = absurd (omega arith)
get_elem?-beyond (x ∷ xs) (suc i) h = get_elem?-beyond xs i (omega arith)

module _ (call : ℕ → Context → Outcome Context) where
  -- A round behind the array is the turn of what is read there.
  round-behind :
      (g : Global) (i cb_id : ℕ) (ctx : Context)
      → length g.plugins ≤ i
      → deliver_round call g i cb_id ctx ≡ take_turn call i cb_id ctx (g.behind i)
  unfolding deliver_round
  round-behind g i cb_id ctx h =
      ap (take_turn call i cb_id ctx) (read_plugin-behind g i (get_elem?-beyond g.plugins i h))

  same_round :
      (g : Global) (i cb_id : ℕ) (ctx : Context) (n : ℕ)
      → deliver_round call (record g { free_plugin = n }) i cb_id ctx
        ≡ deliver_round call g i cb_id ctx
  unfolding deliver_round read_plugin
  same_round g i cb_id ctx n = refl

  -- In a full array of its size, mambo_register_plugin gives NULL, and counts the plugin all the same:
  -- from then on, a delivery of a known event does what it did before, and then takes what the memory
  -- behind the array reads as for one more plugin, and calls the callback that stands there.
  pub mambo_register_plugin_overflow :
      (g : Global) (tmp ctx : Context)
      → length g.plugins ≡ max_plugin_no
      → max_plugin_no ≤ g.free_plugin
      → ctx.event_type < callback_max_idx
      → let (g', registered) = mambo_register_plugin g tmp in
        (registered ≡ none)
        × (mambo_deliver_callbacks_for_ctx call g' ctx ≡ (
            mambo_deliver_callbacks_for_ctx call g ctx >>= λ c.
            take_turn call g.free_plugin ctx.event_type c (g.behind g.free_plugin)))
  unfolding mambo_register_plugin mambo_deliver_callbacks_for_ctx
  mambo_register_plugin_overflow g tmp ctx size full known =
      let n = g.free_plugin in
      let refused : leb max_plugin_no n ≡ true = ground arith in
      let below : ltb ctx.event_type callback_max_idx ≡ true = ground arith in
      let counted : Global = record g { free_plugin = suc n } in
      let event = ctx.event_type in
      let same = λ (j : ℕ) (c : Context). same_round g j event c (suc n) in
      let e : 0 + n ≡ n = omega arith in
      rw (refused, below)
        (
          refl,
          deliver_rounds-last call counted n 0 event ctx
              ∙ ap (λ m. m >>= deliver_round call counted (0 + n) event)
                  (deliver_rounds-agree call counted g n 0 event ctx (λ j c h. same j c))
              ∙ rw e (
                  >>=_cong (deliver_rounds call g n 0 event ctx) _ _
                    (λ c. round-behind counted n event c (omega (arith, size)))),
        )
