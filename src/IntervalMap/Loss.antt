-- ===== src/IntervalMap/Loss.antt =====
-- `interval_map_add` of common.c where the new range meets two entries: the entry that the loop
-- deletes makes the widened one move, and the writes after that go to the cell it came from.
use mambo.Base.{
  ℕ, ◌≤◌, ◌<◌, ◌≡◌, refl, true, false, List, [], ◌∷◌, leb, min, max, pos, minus_one, Returns, arith,
  tally,
}
use mambo.IntervalMap.{
  Entry, State, Os, overlaps, dup_fd, locked, merge_at, add_round, add_rounds, add_new,
  interval_map_add, interval_map_delete_entry, drop_entry, close_fd,
}
use mambo.IntervalMap.Round.{Works}
use mambo.IntervalMap.Tally.{count_of, mult}

abbrev pub anonymous : ℕ → ℕ → Entry
anonymous start end = record { start = start; end = end; fd = minus_one }

abbrev pub two_entries : Entry → Entry → List Entry → ℕ → State
two_entries e₀ e₁ rest n = record {
  mem_size = n;
  entry_count = 2;
  entries = e₀ ∷ e₁ ∷ rest;
  calls = 0;
  closed = [];
}

module _ (s₀ t₀ s₁ t₁ start end n : ℕ) (rest : List Entry) where
  abbrev m : State
  m = two_entries (anonymous s₀ t₀) (anonymous s₁ t₁) rest n

  -- In a map of two entries, both without a file descriptor, with mutex calls that succeed: adding a
  -- range that is not empty, has no descriptor and overlaps both entries returns 0 and leaves one
  -- entry, and an address of the first entry that lies below both the new range and the second entry
  -- is covered before and not covered afterwards.
  pub interval_map_add_loses :
      (os : Os) (a : ℕ)
      → Works os
      → start < end
      → overlaps start end (anonymous s₀ t₀) ≡ true
      → overlaps start end (anonymous s₁ t₁) ≡ true
      → s₀ ≤ a
      → a < t₀
      → a < start
      → a < s₁
      → Returns
          (interval_map_add os m start end minus_one)
          λ r. (r.0 ≡ pos 0) × (r.1.entry_count ≡ 1) × (0 < mult a m) × (mult a r.1 ≡ 0)
  unfolding interval_map_add dup_fd locked add_rounds add_round merge_at interval_map_delete_entry
      drop_entry close_fd add_new mult count_of tally
  interval_map_add_loses os a works range o₀ o₁ lo hi below_range below =
      let some_range : leb end start ≡ false = ground arith in
      let e = anonymous (min s₁ start) (max t₁ end) in
      (
        (
          pos 0,
          record {
            mem_size = n;
            entry_count = 1;
            entries =
                e
                ∷ anonymous (min (min s₁ start) (min s₀ start)) (max (max t₁ end) (max t₀ end))
                ∷ rest;
            calls = 2;
            closed = [];
          },
        ),
        rw (some_range, works.lock_works 0, o₁, o₀, works.unlock_works 1),
        (refl, refl, ground arith, ground arith),
      )
