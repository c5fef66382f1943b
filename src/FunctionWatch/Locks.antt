-- ===== src/FunctionWatch/Locks.antt =====
-- `function_watch_add` and the lock on the functions.
use mambo.Base.{
  ℕ, zero, suc, ap, sym, Returns, ◌+◌, ◌<◌, ◌≡◌, ◌≢◌, ◌∙◌, refl, Bool, true, false, ◌||◌, length,
  leb, get_or, set, get_or-set_self, get_or-set_ne, arith, inl, inr, Bool-cases, pos, negsuc, hang,
}
use mambo.FunctionWatch.{
  Watched, WatchedFunc, no_func, function_watch_add, function_watch_search, search_rounds,
  function_watch_try_addp, function_watch_lock_funcs, max_watched_funcs,
}

or_false : (b : Bool) → (b || false) ≡ b
or_false true = refl
or_false false = refl

or_assoc : (a b c : Bool) → (a || (b || c)) ≡ ((a || b) || c)
or_assoc true b c = refl
or_assoc false b c = refl

module _ (same : ℕ → ℕ → Bool) where
  search_rounds-lock :
      (left : ℕ) (self : Watched) (b : Bool) (name i : ℕ)
      → search_rounds same left (record self { funcs_lock = b }) name i
        ≡ search_rounds same left self name i
  unfolding search_rounds
  search_rounds-lock zero self b name i = refl
  search_rounds-lock (suc left) self b name i =
      rw (search_rounds-lock left self b name (suc i)) refl

  search_rounds-set :
      (left : ℕ) (self : Watched) (func : WatchedFunc) (n : ℕ) (b : Bool) (name i : ℕ)
      → i + left ≡ self.func_count
      → self.func_count < length self.funcs
      → search_rounds same
          (suc left)
          (record self {
            funcs = set self.funcs self.func_count func;
            func_count = n;
            funcs_lock = b;
          })
          name
          i
        ≡ (search_rounds same left self name i || same name func.name)
  unfolding search_rounds
  search_rounds-set zero self func n b name i e room =
      let here : i ≡ self.func_count = omega arith in
      let written = get_or-set_self self.funcs self.func_count func no_func room in
      rw (here, ap (λ (f : WatchedFunc). same name f.name) written) (or_false (same name func.name))
  search_rounds-set (suc left) self func n b name i e room =
      let kept : get_or (set self.funcs self.func_count func) i no_func
          ≡ get_or self.funcs i no_func =
        get_or-set_ne self.funcs self.func_count i func no_func (λ p. omega (arith, p)) in
      let rest = search_rounds-set left self func n b name (suc i) (omega arith) room in
      rw (ap (λ (f : WatchedFunc). same name f.name) kept, rest)
        (or_assoc (same name (get_or self.funcs i no_func).name) _ _)

  -- No further call that wants the lock returns.
  abbrev pub Stuck : Watched → Type 0
  Stuck self =
      ((name id pre post : ℕ) → function_watch_add same self name id pre post ≡ hang)
      × ((name addr : ℕ) → function_watch_try_addp same self name addr ≡ hang)

  locked-Stuck : (self : Watched) → self.funcs_lock ≡ true → Stuck self
  unfolding function_watch_add function_watch_try_addp function_watch_lock_funcs
  locked-Stuck self h = (λ name id pre post. rw h refl, λ name addr. rw h refl)

  -- With the lock free: for a name that is watched already, and in a full table, function_watch_add
  -- returns an error, and no later call of it or of function_watch_try_addp returns; otherwise, with
  -- room in the array, it returns 0, the lock is free, and a name is watched exactly if it was
  -- before or is the new one.
  pub function_watch_add_lem :
      (self : Watched) (name id pre post : ℕ)
      → self.funcs_lock ≡ false
      → ((function_watch_search same self name || leb max_watched_funcs self.func_count) ≡ true
          → Returns (function_watch_add same self name id pre post) λ r. (r.0 ≢ pos 0) × Stuck r.1)
        × ((function_watch_search same self name || leb max_watched_funcs self.func_count) ≡ false
            → self.func_count < length self.funcs
            → Returns (function_watch_add same self name id pre post) λ r.
              (r.0 ≡ pos 0)
              × (r.1.funcs_lock ≡ false)
              × ((other : ℕ)
                  → function_watch_search same r.1 other
                    ≡ (function_watch_search same self other || same other name)))
  unfolding function_watch_add function_watch_lock_funcs function_watch_search
  function_watch_add_lem self name id pre post free =
      let seen = search_rounds-lock self.func_count self true name 0 in
      let locked : Watched = record self { funcs_lock = true } in
      let func : WatchedFunc = record {
        name = name;
        plugin_id = id;
        pre_callback = pre;
        post_callback = post;
      } in
      let added : Watched = record self {
        funcs = set self.funcs self.func_count func;
        func_count = suc self.func_count;
        funcs_lock = false;
      } in
      let counted : Watched = record locked { func_count = suc self.func_count } in
      elim (Bool-cases (search_rounds same self.func_count self name 0)) [
        | inl known ↦ (
          λ h.
              rw (free, seen, known)
                ((negsuc 100, locked), refl, ((λ e. cc), locked-Stuck locked refl)),
          λ h room. let no_way = rw known at h in cc,
        )
        | inr new ↦ elim (Bool-cases (leb 40 self.func_count)) [
          | inl full ↦ (
            λ h.
                rw (free, seen, new, full)
                  ((negsuc 101, counted), refl, ((λ e. cc), locked-Stuck counted refl)),
            λ h room. let no_way = rw (new, full) at h in cc,
          )
          | inr room_left ↦ (
            λ h. let no_way = rw (new, room_left) at h in cc,
            λ h room.
                rw (free, seen, new, room_left)
                  (
                    (pos 0, added),
                    refl,
                    (
                      refl,
                      refl,
                      λ other.
                          search_rounds-set self.func_count self func (suc self.func_count) false
                            other 0 (omega arith) room
                          ∙ ap (λ b. b || same other name)
                              (sym (search_rounds-lock self.func_count self false other 0)),
                    ),
                  ),
          )
        ]
      ]
