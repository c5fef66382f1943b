-- ===== src/IntervalMap/Round.antt =====
-- One round of the loop of `interval_map_delete` of common.c, on every branch that goes on.
use mathlib.Core.Path.{ap₂}
use mambo.Base.{
  ℕ, suc, ◌+◌, ◌≤◌, ◌<◌, ◌≡◌, refl, ap, sym, ◌∙◌, Bool, true, false, ◌&&◌, ◌||◌, ltb, leb, ◌==◌,
  if◌then◌else◌, inl, inr, Bool-cases, length, tally, tally-ge, to_nat, ℤ, pos, negsuc, is_zero,
  is_negative, ok, Returns, arith,
}
use mambo.IntervalMap.{
  Entry, State, Os, entry, put_entry, blank, overlaps, dup_fd, delete_round,
  interval_map_delete_entry, interval_map_add_entry, called,
}
use mambo.IntervalMap.Tally.{
  IsValid, Swaps, Swaps-trans, count_of, covers, bad, mult, one, nothing, put_entry-Swaps,
  delete_entry-Swaps, add_entry-Swaps,
}

-- The calls of the C library succeed.
pub record Works (os : Os) : Type 0 where
  pub lock_works : (n : ℕ) → is_zero (os.lock n) ≡ true
  pub unlock_works : (n : ℕ) → is_zero (os.unlock n) ≡ true
  pub dup_works : (n k : ℕ) → is_negative (os.dup n (pos k)) ≡ false

abbrev pub within : ℕ → ℕ → ℕ → Bool
within start end a = leb start a && ltb a end

-- What stays of an entry at an address.
abbrev pub kept : ℕ → ℕ → ℕ → Entry → ℕ
kept start end a e = if within start end a then 0 else covers a e

abbrev pub hits : ℕ → ℕ → Entry → ℕ
hits start end e = to_nat (overlaps start end e)

-- The entry has parts on both sides of the range.
abbrev pub straddles : ℕ → ℕ → Entry → ℕ
straddles start end e = to_nat (ltb e.start start && ltb end e.end)

-- The range cuts the entry with one end only, and shares no end with it.
abbrev pub cut : ℕ → ℕ → Entry → ℕ
cut start end e = to_nat (
    overlaps start end e
    && (ltb start e.start && ltb end e.end || ltb e.start start && ltb e.end end))

pub record Round (start end i : ℕ) (m m' : State) : Type 0 where
  pub valid : IsValid m'
  pub low : (w : Entry → ℕ) → tally w m'.entries i ≡ tally w m.entries i
  pub mults : (a : ℕ) → mult a m' + covers a (entry m i) ≡ mult a m + kept start end a (entry m i)
  pub above : i ≤ m'.entry_count
  pub grown : m'.entry_count ≤ m.entry_count + straddles start end (entry m i)
  pub mem : m'.mem_size ≡ m.mem_size

Swaps-Round :
    (start end i : ℕ) {in_ : (Entry → ℕ) → ℕ} {m m' : State}
    → IsValid m
    → Swaps i (one (entry m i)) in_ m m'
    → in_ bad ≡ 0
    → ((a : ℕ) → in_ (covers a) ≡ kept start end a (entry m i))
    → i ≤ m'.entry_count
    → m'.entry_count ≤ m.entry_count + straddles start end (entry m i)
    → m'.entry_count ≤ m'.mem_size
    → Round start end i m m'
unfolding mult
Swaps-Round start end i v s fine same lo hi room = record {
  valid = record {
    room = room;
    sized = s.sized ∙ v.sized ∙ sym s.mem;
    proper = omega (arith, s.total bad, v.proper);
  };
  low = λ w. s.low w i (omega arith);
  mults = λ a. omega (arith, s.total (covers a), same a);
  above = lo;
  grown = hi;
  mem = s.mem;
}

module _ (os : Os) (works : Works os) (start end : ℕ) (range : start < end) where
  pub dup_fd_lem :
      (fd : ℤ) (m : State)
      → Returns (dup_fd os fd m) λ r.
        (r.1.entries ≡ m.entries) × (r.1.entry_count ≡ m.entry_count) × (r.1.mem_size ≡ m.mem_size)
  unfolding dup_fd
  dup_fd_lem (negsuc n) m = ((negsuc n, m), refl, (refl, refl, refl))
  dup_fd_lem (pos n) m =
      ((os.dup m.calls (pos n), called m), rw (works.dup_works m.calls n), (refl, refl, refl))

  module _ (i status : ℕ) (m : State) (v : IsValid m) (h : i < m.entry_count) where
    proper_at : (entry m i).start < (entry m i).end
    unfolding count_of
    proper_at =
        ground (arith, tally-ge bad m.entries m.entry_count i blank h (omega arith), v.proper)

    abbrev e : Entry
    e = entry m i

    abbrev Good : ℕ × State → Type 0
    Good r = (r.0 ≡ status + hits start end e) × Round start end i m r.1

    -- The entry lies within the range.
    whole_case :
        overlaps start end e ≡ true
        → (leb start e.start && leb e.end end) ≡ true
        → Returns (delete_round os start end i status m) Good
    unfolding delete_round
    whole_case o c =
        let (code, count, s) = delete_entry-Swaps m i h (omega (arith, v.sized, v.room)) in
        let r = interval_map_delete_entry m (pos i) in
        (
          (suc status, r.1),
          rw (o, c, code),
          (
            rw o (omega arith),
            Swaps-Round start end i v s refl (λ a. ground (arith, proper_at)) (omega arith)
                (omega arith) (rw (count, s.mem) (omega (arith, v.room))),
          ),
        )

    -- One side of the entry stays.
    trim_case :
        (e' : Entry)
        → overlaps start end e ≡ true
        → delete_round os start end i status m ≡ ok (suc status, put_entry m i e')
        → e'.start < e'.end
        → ((a : ℕ) → covers a e' ≡ kept start end a e)
        → Returns (delete_round os start end i status m) Good
    trim_case e' o run proper same =
        let s = put_entry-Swaps m i e' h (omega (arith, v.sized, v.room)) in
        (
          (suc status, put_entry m i e'),
          run,
          (
            rw o (omega arith),
            Swaps-Round start end i v s (ground arith) same (omega arith) (omega arith) v.room,
          ),
        )

    abbrev left : Entry
    left = record e { end = start }

    -- The left part stays in place, and the right part is added.
    split_Round :
        (fd : ℤ) (m₂ : State)
        → m.entry_count + straddles start end e ≤ m.mem_size
        → (ltb e.start start && ltb end e.end) ≡ true
        → m₂.entries ≡ (put_entry m i left).entries
        → m₂.entry_count ≡ m.entry_count
        → m₂.mem_size ≡ m.mem_size
        → let r = interval_map_add_entry m₂ end e.end fd in (r.0 ≡ pos 0) × Round start end i m r.1
    unfolding count_of
    split_Round fd m₂ room c cells count size =
        let s = put_entry-Swaps m i left h (omega (arith, v.sized, v.room)) in
        let same : Swaps i nothing nothing (put_entry m i left) m₂ = record {
          total = λ w. omega (arith, ap₂ (tally w) cells count);
          low = λ w j below. ap (λ xs. tally w xs j) cells;
          sized = ap length cells;
          mem = size;
        } in
        let free : m.entry_count < m.mem_size = ground arith in
        let (code, more, t) =
          add_entry-Swaps m₂ end e.end fd (rw (count, size) free) (ground arith)
            (rw (size, same.sized, s.sized) (omega (arith, v.sized))) in
        (
          code,
          Swaps-Round start end i v
              (Swaps-trans (rw count (omega arith)) (Swaps-trans (omega arith) s same) t)
              (ground arith) (λ a. ground arith) (rw (more, count) (omega arith))
              (rw (more, count) (ground arith)) (omega (arith, more, count, t.mem, size, free)),
        )

    split_case :
        m.entry_count + straddles start end e ≤ m.mem_size
        → (ltb e.start start && ltb end e.end) ≡ true
        → Returns (delete_round os start end i status m) Good
    unfolding delete_round
    split_case room c =
        let o : overlaps start end e ≡ true = ground (arith, proper_at) in
        let not_whole : (leb start e.start && leb e.end end) ≡ false = ground arith in
        let not_left : (start == e.start && ltb end e.end) ≡ false = ground arith in
        let not_right : (end == e.end && ltb e.start start) ≡ false = ground arith in
        let (r, dup_run, (cells, count, size)) = dup_fd_lem e.fd (put_entry m i left) in
        let (code, round) = split_Round r.0 r.1 room c cells count size in
        (
          (suc status, (interval_map_add_entry r.1 end e.end r.0).1),
          rw (o, not_whole, not_left, not_right, dup_run, code),
          (rw o (omega arith), round),
        )

    pub delete_round_lem :
        m.entry_count + straddles start end e ≤ m.mem_size
        → cut start end e ≡ 0
        → Returns (delete_round os start end i status m) Good
    unfolding delete_round
    delete_round_lem room whole = elim (Bool-cases (overlaps start end e)) [
      | inr miss ↦ (
        (status, m),
        rw miss,
        (
          rw miss (omega arith),
          record {
            valid = v;
            low = λ w. refl;
            mults = λ a. ground arith;
            above = omega arith;
            grown = omega arith;
            mem = refl;
          },
        ),
      )
      | inl o ↦ elim (Bool-cases (leb start e.start && leb e.end end)) [
        | inl c ↦ whole_case o c
        | inr not_whole ↦ elim (Bool-cases (start == e.start && ltb end e.end)) [
          | inl c ↦
              trim_case (record e { start = end }) o (rw (o, not_whole, c)) (ground arith)
                (λ a. ground (arith, proper_at))
          | inr not_left ↦ elim (Bool-cases (end == e.end && ltb e.start start)) [
            | inl c ↦
                trim_case (record e { end = start }) o (rw (o, not_whole, not_left, c))
                  (ground arith) (λ a. ground (arith, proper_at))
            | inr not_right ↦ split_case room (ground (arith, proper_at))
          ]
        ]
      ]
    ]
