-- ===== src/FunctionWatch/Invalidate.antt =====
-- `function_watch_addp_invalidate`: what stays in the table, and what it misses.
use mambo.Base.{
  ℕ, zero, suc, ◌+◌, ◌-◌, ◌≤◌, ◌<◌, ◌≡◌, ◌∙◌, refl, ap, Bool, true, false, ◌&&◌, ◌||◌, length, ltb,
  leb, ◌==◌, set, get_or-set_self, length-set, tally, tally-pred, tally-set, arith, inl, inr,
  Bool-cases, ℤ, pos, minus_one, ok, Returns, some,
}
use mambo.FunctionWatch.{
  Watched, WatchedFuncp, no_funcp, funcp_at, function_watch_lock_funcps, function_watch_delete_addp,
  invalidate_rounds, function_watch_addp_invalidate,
}

abbrev pub within : ℕ → ℕ → WatchedFuncp → Bool
within addr size entry = leb addr entry.addr && ltb entry.addr (addr + size)

-- How much of a weight the table holds.
abbrev pub held : (WatchedFuncp → ℕ) → Watched → ℕ
held w self = tally w self.funcps self.funcp_count

-- The table is no longer than its array.
abbrev pub Fits : Watched → Type 0
Fits self = self.funcp_count ≤ length self.funcps

-- The deletion of an entry takes its weight away, and nothing else.
function_watch_delete_addp_lem :
    (self : Watched) (i : ℕ)
    → Fits self
    → i < self.funcp_count
    → (self' : Watched) × (function_watch_delete_addp self i ≡ some self')
      × (suc self'.funcp_count ≡ self.funcp_count)
      × (length self'.funcps ≡ length self.funcps)
      × (self'.funcps_lock ≡ self.funcps_lock)
      × ((w : WatchedFuncp → ℕ) → held w self' + w (funcp_at self i) ≡ held w self)
unfolding function_watch_delete_addp
function_watch_delete_addp_lem self i fits here =
    let last = self.funcp_count - 1 in
    let some_left : (ltb last i || (self.funcp_count == 0)) ≡ false = ground arith in
    elim (Bool-cases (ltb i last)) [
      | inl before ↦
          rw (some_left, before)
            (
              record self { funcps = set self.funcps i (funcp_at self last); funcp_count = last },
              refl,
              omega arith,
              length-set self.funcps i (funcp_at self last),
              refl,
              λ w.
                  let whole =
                    tally-pred w self.funcps self.funcp_count no_funcp (omega arith) fits in
                  let moved =
                    tally-set w self.funcps last i (funcp_at self last) no_funcp (ground arith)
                      (omega (arith, fits)) in
                  omega (arith, whole, moved),
            )
      | inr at_end ↦
          rw (some_left, at_end)
            (
              record self { funcp_count = last },
              refl,
              omega arith,
              refl,
              refl,
              λ w.
                  let whole =
                    tally-pred w self.funcps self.funcp_count no_funcp (omega arith) fits in
                  let same : last ≡ i = ground arith in
                  omega (arith, whole, ap (λ k. w (funcp_at self k)) same),
            )
    ]

-- What the rounds leave: at most what there was, and all that lies outside of the range.
abbrev Leaves : Watched → ℕ → ℕ → Watched → Type 0
Leaves self addr size self' =
    Fits self'
    × (self'.funcps_lock ≡ self.funcps_lock)
    × ((w : WatchedFuncp → ℕ) → held w self' ≤ held w self)
    × ((w : WatchedFuncp → ℕ)
        → ((entry : WatchedFuncp) → within addr size entry ≡ true → w entry ≡ 0)
        → held w self' ≡ held w self)

invalidate_rounds_lem :
    (left : ℕ) (self : Watched) (addr size i : ℕ) (ret : ℤ)
    → Fits self
    → self.funcp_count ≤ i + left
    → Returns (invalidate_rounds left self addr size i ret) λ r. Leaves self addr size r.1
unfolding invalidate_rounds
invalidate_rounds_lem zero self addr size i ret fits enough =
    let done : ltb i self.funcp_count ≡ false = ground arith in
    rw done ((ret, self), refl, (fits, refl, (λ w. omega arith), λ w h. refl))
invalidate_rounds_lem (suc left) self addr size i ret fits enough =
    elim (Bool-cases (ltb i self.funcp_count)) [
      | inr done ↦ rw done ((ret, self), refl, (fits, refl, (λ w. omega arith), λ w h. refl))
      | inl more ↦ elim (Bool-cases (within addr size (funcp_at self i))) [
        | inr outside ↦
            rw (more, outside)
              (invalidate_rounds_lem left self addr size (suc i) ret fits (omega arith))
        | inl inside ↦
            let (self₁, deleted, one, size₁, lock, weight) =
              function_watch_delete_addp_lem self i fits (ground arith) in
            let (r, returned, (fits', lock', less, same)) =
              invalidate_rounds_lem left self₁ addr size (suc i) (pos 0)
                (omega (arith, fits, one, size₁)) (omega (arith, one)) in
            rw (more, inside, deleted)
              (
                r,
                returned,
                (
                  fits',
                  lock' ∙ lock,
                  λ w. omega (arith, less w, weight w),
                  λ w h. omega (arith, same w h, weight w, h (funcp_at self i) inside),
                ),
              )
      ]
    ]

-- With the lock free and a table within its array, function_watch_addp_invalidate returns, and the
-- lock is free: the table holds nothing that it did not hold, and each entry outside of the range
-- as often as before.
pub function_watch_addp_invalidate_lem :
    (self : Watched) (addr size : ℕ)
    → self.funcps_lock ≡ false
    → Fits self
    → Returns (function_watch_addp_invalidate self addr size) λ r.
      Fits r.1
      × (r.1.funcps_lock ≡ false)
      × ((w : WatchedFuncp → ℕ) → held w r.1 ≤ held w self)
      × ((w : WatchedFuncp → ℕ)
          → ((entry : WatchedFuncp) → within addr size entry ≡ true → w entry ≡ 0)
          → held w r.1 ≡ held w self)
unfolding function_watch_addp_invalidate function_watch_lock_funcps
function_watch_addp_invalidate_lem self addr size free fits =
    let locked : Watched = record self { funcps_lock = true } in
    let (r, returned, (fits', lock', less, same)) =
      invalidate_rounds_lem self.funcp_count locked addr size 0 minus_one fits (omega arith) in
    rw (free, returned) ((r.0, record r.1 { funcps_lock = false }), refl, (fits', refl, less, same))

-- Entries outside of the range are passed.
rounds_skip :
    (d left : ℕ) (self : Watched) (addr size i : ℕ) (ret : ℤ)
    → i + d ≤ self.funcp_count
    → ((j : ℕ) → j < i + d → within addr size (funcp_at self j) ≡ false)
    → invalidate_rounds (d + left) self addr size i ret
      ≡ invalidate_rounds left self addr size (i + d) ret
unfolding invalidate_rounds
rounds_skip zero left self addr size i ret h outside =
    let e : 0 + left ≡ left = omega arith in let f : i + 0 ≡ i = omega arith in rw (e, f) refl
rounds_skip (suc d) left self addr size i ret h outside =
    let e : suc d + left ≡ suc (d + left) = omega arith in
    let f : i + suc d ≡ suc i + d = omega arith in
    let more : ltb i self.funcp_count ≡ true = ground arith in
    rw (e, more, outside i (omega arith), f)
      (rounds_skip d left self addr size (suc i) ret (omega arith) (λ j l. outside j (omega arith)))

-- The entry that is moved into the place of the deleted one is passed.
last_two :
    (self : Watched) (addr size n : ℕ) (ret : ℤ)
    → self.funcp_count ≡ n + 2
    → within addr size (funcp_at self n) ≡ true
    → invalidate_rounds 2 self addr size n ret
      ≡ ok (
        pos 0,
        record self {
          funcps = set self.funcps n (funcp_at self (self.funcp_count - 1));
          funcp_count = self.funcp_count - 1;
        },
      )
unfolding invalidate_rounds function_watch_delete_addp
last_two self addr size n ret two here =
    let last = self.funcp_count - 1 in
    let more : ltb n self.funcp_count ≡ true = ground arith in
    let found : (ltb last n || (self.funcp_count == 0)) ≡ false = ground arith in
    let before : ltb n last ≡ true = ground arith in
    let done : ltb (suc n) last ≡ false = ground arith in rw (more, here, found, before, done) refl

-- With the lock free and a table within its array, if its last two entries lie in the range and no
-- other does, function_watch_addp_invalidate returns 0, and the last entry is still in the table,
-- in the range.
pub function_watch_addp_invalidate-misses :
    (self : Watched) (addr size n : ℕ)
    → self.funcps_lock ≡ false
    → Fits self
    → self.funcp_count ≡ n + 2
    → ((j : ℕ) → j < n → within addr size (funcp_at self j) ≡ false)
    → within addr size (funcp_at self n) ≡ true
    → within addr size (funcp_at self (suc n)) ≡ true
    → Returns (function_watch_addp_invalidate self addr size) λ r.
      (r.0 ≡ pos 0)
      × (r.1.funcp_count ≡ suc n)
      × (funcp_at r.1 n ≡ funcp_at self (suc n))
      × (within addr size (funcp_at r.1 n) ≡ true)
unfolding function_watch_addp_invalidate function_watch_lock_funcps
function_watch_addp_invalidate-misses self addr size n free fits two outside here there =
    let locked : Watched = record self { funcps_lock = true } in
    let skipped =
      rounds_skip n 2 locked addr size 0 minus_one (omega (arith, two))
        (λ j l. outside j (omega arith)) in
    let last = self.funcp_count - 1 in
    let from_start : 0 + n ≡ n = omega arith in
    let end : last ≡ suc n = omega (arith, two) in
    let moved : Watched = record self {
      funcps = set self.funcps n (funcp_at self last);
      funcp_count = last;
      funcps_lock = false;
    } in
    let kept =
      get_or-set_self self.funcps n (funcp_at self last) no_funcp (omega (arith, two, fits))
      ∙ ap (λ k. funcp_at self k) end in
    rw
      (
        free,
        ap (λ k. invalidate_rounds k locked addr size 0 minus_one) two,
        skipped,
        from_start,
        last_two locked addr size n minus_one two here,
      )
      ((pos 0, moved), refl, (refl, end, kept, ap (within addr size) kept ∙ there))
