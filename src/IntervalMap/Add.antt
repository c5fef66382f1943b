-- ===== src/IntervalMap/Add.antt =====
-- `interval_map_add` of common.c: right where the new range meets one entry at most, and what is
-- lost where it meets two.
use mathlib.Core.Path.{ap₂}
use mambo.Base.{
  ℕ, ◌⊎◌, tally-set_above, length-set, zero, suc, ◌≤◌, ◌<◌, ◌≡◌, refl, ap, sym, ◌∙◌, Bool, true,
  false, not, ◌&&◌, ◌||◌, ltb, leb, min, max, inl, inr, Bool-cases, length, tally, tally-ge,
  tally-suc, to_nat, ℤ, pos, negsuc, is_negative, ok, ◌>>=◌, Returns, arith, none, some,
}
use mambo.IntervalMap.{
  Entry, State, Os, Merge, entry, blank, overlaps, dup_fd, locked, called, widen, merge_at,
  add_round, add_rounds, add_new, interval_map_add, interval_map_add_entry,
}
use mambo.IntervalMap.Round.{Works, within, hits}
use mambo.IntervalMap.Tally.{
  IsValid, Swaps, count_of, covers, bad, mult, put_entry-Swaps, add_entry-Swaps,
}

-- The `assert` in the loop fails at this entry.
abbrev clash : Bool → ℕ → ℕ → Entry → ℕ
clash negative start end e = to_nat (overlaps start end e && not (negative && is_negative e.fd))

module _ (fd : ℤ) where
  -- Rounds that meet no entry.
  add_rounds_miss :
      (n : ℕ) (s : Merge)
      → n ≤ length s.map.entries
      → tally (hits s.start s.end) s.map.entries n ≡ 0
      → add_rounds fd n s ≡ ok s
  unfolding add_rounds add_round
  add_rounds_miss zero s l h = refl
  add_rounds_miss (suc n) s l h =
      let sum = tally-suc (hits s.start s.end) s.map.entries n blank (omega arith) in
      let miss : overlaps s.start s.end (entry s.map n) ≡ false = ground arith in
      rw miss (add_rounds_miss n s (omega arith) (omega (arith, sum, h)))

  add_rounds_skip :
      (n : ℕ) (s : Merge)
      → overlaps s.start s.end (entry s.map n) ≡ false
      → add_rounds fd (suc n) s ≡ add_rounds fd n s
  unfolding add_rounds add_round
  add_rounds_skip n s miss = rw miss

  module _ (start end : ℕ) (m : State) where
    abbrev s₀ : Merge
    s₀ = record { start = start; end = end; overlap_ind = none; map = m }

    -- With one hit at most, the loop widens that entry or does nothing.
    abbrev Merged : ℕ → Merge → Type 0
    Merged n s =
        ((s ≡ s₀) × (tally (hits start end) m.entries n ≡ 0))
        ⊎ ((i : ℕ) × (i < n)
            × (overlaps start end (entry m i) ≡ true)
            × (s ≡ record {
              start = start;
              end = end;
              overlap_ind = some i;
              map = widen m i start end;
            }))

    add_rounds_merge :
        (n : ℕ)
        → n ≤ length m.entries
        → tally (hits start end) m.entries n ≤ 1
        → tally (clash (is_negative fd) start end) m.entries n ≡ 0
        → Returns (add_rounds fd n s₀) (Merged n)
    unfolding add_rounds add_round merge_at tally
    add_rounds_merge zero l h c = (s₀, refl, inl (refl, refl))
    add_rounds_merge (suc n) l h c =
        let sum = tally-suc (hits start end) m.entries n blank (omega arith) in
        let clashes =
          tally-suc (clash (is_negative fd) start end) m.entries n blank (omega arith) in
        elim (Bool-cases (overlaps start end (entry m n))) [
          | inr miss ↦
              let (s, run, merged) =
                add_rounds_merge n (omega arith) (omega (arith, sum)) (omega (arith, clashes)) in
              (
                s,
                add_rounds_skip n s₀ miss ∙ run,
                elim merged [
                  | inl (same, none_hit) ↦ inl (same, omega (arith, none_hit, sum, ap to_nat miss))
                  | inr (i, lt, o, same) ↦ inr (i, omega arith, o, same)
                ],
              )
          | inl o ↦
              let fds : (is_negative fd && is_negative (entry m n).fd) ≡ true = ground arith in
              let s : Merge = record {
                start = start;
                end = end;
                overlap_ind = some n;
                map = widen m n start end;
              } in
              (
                s,
                rw (o, fds)
                    (add_rounds_miss n s (rw length-set (omega arith)) (
                      tally-set_above (hits start end) m.entries n n _ (omega arith)
                      ∙ omega (arith, sum, ap to_nat o))),
                inr (n, omega arith, o, refl),
              )
        ]

    -- What the whole of the locked part does.
    abbrev Added : ℤ × State → Type 0
    Added r =
        (r.0 ≡ pos 0)
        × IsValid r.1
        × ((a : ℕ) → ltb 0 (mult a r.1) ≡ (within start end a || ltb 0 (mult a m)))

    Swaps-Added :
        (code : ℤ) {i : ℕ} {out in_ : (Entry → ℕ) → ℕ} {m' : State}
        → code ≡ pos 0
        → IsValid m
        → Swaps i out in_ m m'
        → in_ bad ≡ 0
        → ((a : ℕ) → out (covers a) ≤ mult a m)
        → ((a : ℕ) → ltb 0 (in_ (covers a)) ≡ (within start end a || ltb 0 (out (covers a))))
        → m'.entry_count ≤ m'.mem_size
        → Added (code, m')
    unfolding mult
    Swaps-Added code c v s fine part covered room = (
      c,
      record {
        room = room;
        sized = s.sized ∙ v.sized ∙ sym s.mem;
        proper = omega (arith, s.total bad, v.proper);
      },
      λ a. ground (arith, s.total (covers a), covered a, part a),
    )

    locked_part :
        start < end
        → IsValid m
        → m.entry_count < m.mem_size
        → count_of (hits start end) m ≤ 1
        → count_of (clash (is_negative fd) start end) m ≡ 0
        → Returns (add_rounds fd m.entry_count s₀ >>= λ s. add_new fd s.overlap_ind s) Added
    unfolding count_of add_new mult
    locked_part range v room few c =
        let (s, run, merged) =
          add_rounds_merge m.entry_count (omega (arith, v.sized, v.room)) few c in
        elim merged [
          | inl (same, none_hit) ↦
              let (code, more, t) =
                add_entry-Swaps m start end fd room range (omega (arith, v.sized)) in
              (
                (pos 0, (interval_map_add_entry m start end fd).1),
                rw (run, same, code),
                Swaps-Added (pos 0) refl v t (ground arith) (λ a. omega arith) (λ a. ground arith)
                    (omega (arith, more, t.mem, room)),
              )
          | inr (i, lt, o, same) ↦
              let e = entry m i in
              let e' = entry (widen m i start end) i in
              let l : i < length m.entries = omega (arith, v.sized, v.room) in
              let proper = tally-ge bad m.entries m.entry_count i blank lt l in
              let t =
                put_entry-Swaps m i (record e { start = min e.start start; end = max e.end end }) lt
                  (omega (arith, v.sized, v.room)) in
              (
                (pos 0, widen m i start end),
                rw (run, same),
                Swaps-Added (pos 0) refl v t (ground (arith, proper, v.proper))
                    (λ a. tally-ge (covers a) m.entries m.entry_count i blank lt l)
                    (λ a. ground (arith, proper, v.proper)) v.room,
              )
        ]

dup_fd_sign :
    (os : Os) (fd : ℤ) (m : State)
    → Works os
    → Returns (dup_fd os fd m) λ r.
      (is_negative r.0 ≡ is_negative fd)
      × (r.1.entries ≡ m.entries)
      × (r.1.entry_count ≡ m.entry_count)
      × (r.1.mem_size ≡ m.mem_size)
unfolding dup_fd
dup_fd_sign os (negsuc n) m works = ((negsuc n, m), refl, (refl, refl, refl, refl))
dup_fd_sign os (pos n) m works =
    let fails = works.dup_works m.calls n in
    ((os.dup m.calls (pos n), called m), rw fails, (fails, refl, refl, refl))

count_of_same :
    (w : Entry → ℕ) (m m' : State)
    → m'.entries ≡ m.entries
    → m'.entry_count ≡ m.entry_count
    → count_of w m' ≡ count_of w m
unfolding count_of
count_of_same w m m' cells count = ap₂ (tally w) cells count

-- If the calls of the C library succeed, the range is not empty, the array has a free cell, at most
-- one entry overlaps the range, and neither side of that overlap has a descriptor, then
-- `interval_map_add` returns 0, keeps the map valid, and an address is covered afterwards exactly if
-- it was before or lies in the range.
pub interval_map_add_lem :
    (os : Os) (m : State) (start end : ℕ) (fd : ℤ)
    → Works os
    → IsValid m
    → start < end
    → m.entry_count < m.mem_size
    → count_of (hits start end) m ≤ 1
    → count_of (clash (is_negative fd) start end) m ≡ 0
    → Returns (interval_map_add os m start end fd) λ r.
      (r.0 ≡ pos 0)
      × IsValid r.1
      × ((a : ℕ) → ltb 0 (mult a r.1) ≡ (within start end a || ltb 0 (mult a m)))
unfolding interval_map_add locked mult count_of
interval_map_add_lem os m start end fd works v range room few c =
    let some_range : leb end start ≡ false = ground arith in
    let ((fd', m₁), dup_run, (sign, cells, count, size)) = dup_fd_sign os fd m works in
    let same = λ (w : Entry → ℕ). count_of_same w m (called m₁) cells count in
    let v₁ : IsValid (called m₁) = record {
      room = rw (count, size) v.room;
      sized = rw (cells, size) v.sized;
      proper = same bad ∙ v.proper;
    } in
    let ((code, m₂), run, (zero_code, v₂, covered)) =
      locked_part fd' start end (called m₁) range v₁ (rw (count, size) room)
        (omega (arith, same (hits start end), few))
        (rw sign (same (clash (is_negative fd) start end) ∙ c)) in
    (
      (code, called m₂),
      rw (some_range, dup_run, works.lock_works m₁.calls, run, works.unlock_works m₂.calls),
      (
        zero_code,
        record { room = v₂.room; sized = v₂.sized; proper = v₂.proper },
        λ a. covered a ∙ ap (λ n. within start end a || ltb 0 n) (same (covers a)),
      ),
    )
