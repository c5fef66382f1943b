-- ===== src/IntervalMap/Search.antt =====
-- `interval_map_search` and `interval_map_search_by_addr` of common.c against the addresses covered.
use mambo.Base.{
  ℕ, zero, suc, ◌+◌, ◌≤◌, ◌<◌, ◌≡◌, refl, ap, ◌↔◌, true, false, leb, if◌then◌else◌, max, inl, inr,
  Bool-cases, length, tally, tally-ge, tally-suc, tally_mono, tally-eq-zero, to_nat, ℤ, pos,
  Returns, arith, Option, none, some,
}
use mambo.IntervalMap.{
  Entry, State, Os, entry, blank, holds, overlaps, search_rounds, interval_map_search, find_round,
  found_code, interval_map_search_by_addr, locked, called,
}
use mambo.IntervalMap.Round.{Works, within, hits}
use mambo.IntervalMap.Tally.{IsValid, count_of, covers, bad, mult}

search_rounds_lem :
    (start end n status : ℕ) (m : State)
    → n ≤ length m.entries
    → search_rounds start end n status m ≡ status + tally (hits start end) m.entries n
unfolding search_rounds tally
search_rounds_lem start end zero status m h = omega arith
search_rounds_lem start end (suc n) status m h =
    let next = if overlaps start end (entry m n) then suc status else status in
    let step : next ≡ status + hits start end (entry m n) = ground arith in
    omega (
      arith,
      search_rounds_lem start end n next m (omega arith),
      step,
      tally-suc (hits start end) m.entries n blank (omega arith),
    )

module _ (m : State) (start end : ℕ) (range : start < end) (v : IsValid m) where
  -- An address of the range that is covered shows an entry that overlaps, and the other way round.
  hits-zero_iff :
      (count_of (hits start end) m ≡ 0) ↔ ((a : ℕ) → within start end a ≡ true → mult a m ≡ 0)
  unfolding count_of mult
  hits-zero_iff = (
    λ none_hit a inside.
        let n = m.entry_count in
        omega
          (arith, none_hit, tally_mono (covers a) (hits start end) m.entries n (λ e. ground arith)),
    λ uncovered. tally-eq-zero (hits start end) m.entries m.entry_count blank λ i p l.
        let e = entry m i in
        let a = max start e.start in
        let proper = tally-ge bad m.entries m.entry_count i blank p l in
        let at_most = tally-ge (covers a) m.entries m.entry_count i blank p l in
        elim (Bool-cases (overlaps start end e)) [
          | inr miss ↦ rw miss
          | inl o ↦ absurd (ground (arith, uncovered a, at_most, proper, v.proper))
        ],
  )

-- `interval_map_search` returns the number of entries that overlap the range and changes nothing;
-- in a valid map the number is 0 exactly if no address of the range is covered.
interval_map_search_lem :
    (os : Os) (m : State) (start end : ℕ)
    → Works os
    → IsValid m
    → start < end
    → Returns (interval_map_search os m start end) λ r.
      (r.0 ≡ pos (count_of (hits start end) m))
      × (r.1.entries ≡ m.entries)
      × (r.1.entry_count ≡ m.entry_count)
      × ((count_of (hits start end) m ≡ 0) ↔ ((a : ℕ) → within start end a ≡ true → mult a m ≡ 0))
unfolding interval_map_search locked count_of
interval_map_search_lem os m start end works v range =
    let some_range : leb end start ≡ false = ground arith in
    let n = search_rounds start end m.entry_count 0 (called m) in
    (
      (pos n, called (called m)),
      rw (some_range, works.lock_works m.calls, works.unlock_works (suc m.calls)),
      (
        ap pos (
            omega (
              arith,
              search_rounds_lem start end m.entry_count 0 (called m)
                  (omega (arith, v.sized, v.room)),
            )),
        refl,
        refl,
        hits-zero_iff m start end range v,
      ),
    )

-- What the loop knows of the cells below n.
abbrev Found : ℕ → ℕ → State → Option Entry → Type 0
Found a n m none = tally (covers a) m.entries n ≡ 0
Found a n m (some e) =
    (holds a e ≡ true) × (0 < tally (covers a) m.entries n) × (i : ℕ) × (i < n) × (entry m i ≡ e)

Found-step :
    (a n : ℕ) (m : State) (o : Option Entry)
    → n < length m.entries
    → holds a (entry m n) ≡ false
    → Found a n m o
    → Found a (suc n) m o
Found-step a n m none h miss f =
    omega (arith, f, tally-suc (covers a) m.entries n blank h, ap to_nat miss)
Found-step a n m (some e) h miss (hit, at_least, i, lt, at) =
    (hit, omega (arith, at_least, tally-suc (covers a) m.entries n blank h), i, omega arith, at)

find_round-Found : (a n : ℕ) (m : State) → n ≤ length m.entries → Found a n m (find_round a n m)
unfolding find_round tally
find_round-Found a zero m h = refl
find_round-Found a (suc n) m h = elim (Bool-cases (holds a (entry m n))) [
  | inl hit ↦ rw hit (
    hit,
    omega (arith, tally-suc (covers a) m.entries n blank (omega arith), ap to_nat hit),
    n,
    omega arith,
    refl,
  )
  | inr miss ↦ rw miss (
      Found-step a n m (find_round a n m) (omega arith) miss (find_round-Found a n m (omega arith)))
]

-- The code and the entry that a search for an address may return.
abbrev pub Answers : ℕ → State → ℤ → Option Entry → Type 0
Answers a m code none = (code ≡ pos 0) × (mult a m ≡ 0)
Answers a m code (some e) =
    (code ≡ pos 1)
    × (holds a e ≡ true)
    × (0 < mult a m)
    × (i : ℕ) × (i < m.entry_count)
    × (entry m i ≡ e)

Found-Answers :
    (a : ℕ) (m : State) (o : Option Entry)
    → Found a m.entry_count m o
    → Answers a m (found_code o) o
unfolding mult count_of
Found-Answers a m none f = (refl, f)
Found-Answers a m (some e) (hit, at_least, i, lt, at) = (refl, hit, at_least, i, lt, at)

-- If the calls of the C library succeed, for a valid map and an entry pointer that is not null:
-- `interval_map_search_by_addr` returns 1 and a live entry that holds the address, if the address is
-- covered, and 0 with no entry if it is not.
pub interval_map_search_by_addr_lem :
    (os : Os) (m : State) (a : ℕ)
    → Works os
    → IsValid m
    → Returns (interval_map_search_by_addr os m a true) λ r. Answers a m r.0 r.1
unfolding interval_map_search_by_addr mult count_of
interval_map_search_by_addr_lem os m a works v =
    let hit = find_round a m.entry_count (called m) in
    (
      (found_code hit, hit, called (called m)),
      rw (works.lock_works m.calls, works.unlock_works (suc m.calls)),
      Found-Answers a (called m) hit
          (find_round-Found a m.entry_count (called m) (omega (arith, v.sized, v.room))),
    )
