-- ===== src/IntervalMap/Delete.antt =====
-- `interval_map_delete` of common.c removes exactly the given range.
use mambo.Base.{
  ℕ, zero, suc, ◌+◌, ◌≤◌, ◌<◌, ◌≡◌, refl, ap, ◌∙◌, true, false, ◌&&◌, ltb, leb, ◌==◌, if◌then◌else◌,
  length, tally, tally-suc, ℤ, pos, is_zero, abort, Returns, arith,
}
use mambo.IntervalMap.{
  Entry, State, Os, entry, put_entry, blank, overlaps, delete_round, delete_rounds,
  interval_map_delete, interval_map_add_entry, locked, called,
}
use mambo.IntervalMap.Round.{Works, within, hits, straddles, cut, dup_fd_lem, delete_round_lem}
use mambo.IntervalMap.Tally.{IsValid, count_of, covers, mult}

module _ (os : Os) (works : Works os) (start end : ℕ) (range : start < end) where
  abbrev GoodEnd : ℕ → ℕ → State → ℕ × State → Type 0
  GoodEnd n status m r =
      (r.0 ≡ status + tally (hits start end) m.entries n)
      × IsValid r.1
      × ((a : ℕ) → mult a r.1 ≡ (if within start end a then 0 else mult a m))

  -- Below the entries that are done, and at the addresses of the range, all that is left is in the
  -- cells below n.
  delete_rounds_lem :
      (n status : ℕ) (m : State)
      → IsValid m
      → n ≤ m.entry_count
      → m.entry_count + tally (straddles start end) m.entries n ≤ m.mem_size
      → tally (cut start end) m.entries n ≡ 0
      → ((a : ℕ) → within start end a ≡ true → mult a m ≡ tally (covers a) m.entries n)
      → Returns (delete_rounds os start end n status m) (GoodEnd n status m)
  unfolding delete_rounds tally
  delete_rounds_lem zero status m v h room whole rest =
      ((status, m), refl, (omega arith, v, λ a. ground (arith, rest a)))
  delete_rounds_lem (suc n) status m v h room whole rest =
      let l : n < length m.entries = omega (arith, v.sized, v.room) in
      let sum = λ (w : Entry → ℕ). tally-suc w m.entries n blank l in
      let ((status', m'), run, (found, r)) =
        delete_round_lem os works start end range n status m v h
          (omega (arith, room, sum (straddles start end)))
          (omega (arith, whole, sum (cut start end))) in
      let ((status'', m''), run', (found', v'', mults)) =
        delete_rounds_lem n status' m' r.valid r.above
          (rw r.low (omega (arith, r.grown, r.mem, room, sum (straddles start end))))
          (rw r.low (omega (arith, whole, sum (cut start end))))
          (λ a inside. rw r.low (ground (arith, r.mults a, rest a, sum (covers a)))) in
      (
        (status'', m''),
        rw (run, run'),
        (
          omega (arith, found, found', r.low (hits start end), sum (hits start end)),
          v'',
          λ a. ground (arith, r.mults a, mults a),
        ),
      )

add_entry_fails :
    (m : State) (start end : ℕ) (fd : ℤ)
    → end ≤ start
    → is_zero (interval_map_add_entry m start end fd).0 ≡ false
unfolding interval_map_add_entry
add_entry_fails m start end fd h = ground arith

module _ (os : Os) (works : Works os) (start end : ℕ) (range : start < end) where
  delete_round_aborts :
      (i status : ℕ) (m : State)
      → (entry m i).start < start
      → start < (entry m i).end
      → (entry m i).end < end
      → delete_round os start end i status m ≡ abort
  unfolding delete_round
  delete_round_aborts i status m before inside behind =
      let e = entry m i in
      let o : overlaps start end e ≡ true = ground arith in
      let not_whole : (leb start e.start && leb e.end end) ≡ false = ground arith in
      let not_left : (start == e.start && ltb end e.end) ≡ false = ground arith in
      let not_right : (end == e.end && ltb e.start start) ≡ false = ground arith in
      let (r, dup_run, _) =
        dup_fd_lem os works start end range e.fd (put_entry m i (record e { end = start })) in
      rw (
        o,
        not_whole,
        not_left,
        not_right,
        dup_run,
        add_entry_fails r.1 end e.end r.0 (omega arith),
      )

module _ (os : Os) (works : Works os) (m : State) (start end : ℕ) (range : start < end) where
  -- If the calls of the C library succeed, no entry is cut by only one end of the range, and there
  -- is room for the entries that are split, `interval_map_delete` returns the number of entries
  -- that overlap the range, keeps the map valid, and takes exactly the range's addresses away.
  pub interval_map_delete_lem :
      IsValid m
      → count_of (cut start end) m ≡ 0
      → m.entry_count + count_of (straddles start end) m ≤ m.mem_size
      → Returns (interval_map_delete os m start end) λ r.
        (r.0 ≡ pos (count_of (hits start end) m))
        × IsValid r.1
        × ((a : ℕ) → mult a r.1 ≡ (if within start end a then 0 else mult a m))
  unfolding interval_map_delete locked count_of mult
  interval_map_delete_lem v whole room =
      let some_range : leb end start ≡ false = ground arith in
      let ((status, m'), run, (found, v', mults)) =
        delete_rounds_lem os works start end range m.entry_count 0 (called m)
          (record { room = v.room; sized = v.sized; proper = v.proper }) (omega arith) room whole
          (λ a inside. refl) in
      (
        (pos status, called m'),
        rw (some_range, works.lock_works m.calls, run, works.unlock_works m'.calls),
        (
          ap pos (omega (arith, found)),
          record { room = v'.room; sized = v'.sized; proper = v'.proper },
          mults,
        ),
      )

  -- If the calls of the C library succeed, and the range is not empty, begins inside the last live
  -- entry and ends behind it, `interval_map_delete` reaches the `assert` on the result of
  -- `interval_map_add_entry`, which fails.
  pub interval_map_delete_aborts :
      (i : ℕ)
      → m.entry_count ≡ suc i
      → (entry m i).start < start
      → start < (entry m i).end
      → (entry m i).end < end
      → interval_map_delete os m start end ≡ abort
  unfolding interval_map_delete locked delete_rounds
  interval_map_delete_aborts i last before inside behind =
      let some_range : leb end start ≡ false = ground arith in
      let first : delete_rounds os start end (suc i) 0 (called m) ≡ abort =
        rw (delete_round_aborts os works start end range i 0 (called m) before inside behind) in
      let all = ap (λ n. delete_rounds os start end n 0 (called m)) last ∙ first in
      rw (some_range, works.lock_works m.calls, all)
