-- ===== src/IntervalMap/Tally.antt =====
-- The entries of an interval map counted with weights, and what the two private operations of
-- common.c do to every such count.
use mambo.Base.{
  ℕ, suc, ◌+◌, ◌-◌, ◌≤◌, ◌<◌, ◌≡◌, refl, ap, ◌∙◌, false, List, leb, length, get_or, set, inl, inr,
  Bool-cases, tally, tally-suc, tally-pred, get_or-set_self, tally-set, tally-set_above, length-set,
  to_nat, ℤ, pos, negsuc, arith,
}
use mathlib.Core.Path.{ap₂}
use native.Mathlib.Decide.{dec_lt}
use mambo.IntervalMap.{
  Entry, State, entry, put_entry, blank, holds, close_fd, drop_entry, interval_map_delete_entry,
  interval_map_add_entry,
}

-- The sum of a weight over the live entries.
unfoldable pub count_of : (Entry → ℕ) → State → ℕ
count_of w m = tally w m.entries m.entry_count

abbrev pub bad : Entry → ℕ
bad e = to_nat (leb e.end e.start)

-- The array has `mem_size` cells, the live ones are within it, and none is empty or reversed.
pub record IsValid (m : State) : Type 0 where
  pub room : m.entry_count ≤ m.mem_size
  pub sized : length m.entries ≡ m.mem_size
  pub proper : count_of bad m ≡ 0

abbrev pub covers : ℕ → Entry → ℕ
covers a e = to_nat (holds a e)

-- How many live entries hold an address.
unfoldable pub mult : ℕ → State → ℕ
mult a m = count_of (covers a) m

close_fd_keeps :
    (fd : ℤ) (m : State)
    → ((close_fd fd m).entries ≡ m.entries)
      × ((close_fd fd m).entry_count ≡ m.entry_count)
      × ((close_fd fd m).mem_size ≡ m.mem_size)
unfolding close_fd
close_fd_keeps (pos n) m = (refl, refl, refl)
close_fd_keeps (negsuc n) m = (refl, refl, refl)

-- A change of the array in which cell i gives way to others; the cells below i stay.
pub record Swaps (i : ℕ) (out in_ : (Entry → ℕ) → ℕ) (m m' : State) : Type 0 where
  pub total : (w : Entry → ℕ) → count_of w m' + out w ≡ count_of w m + in_ w
  pub low : (w : Entry → ℕ) (j : ℕ) → j ≤ i → tally w m'.entries j ≡ tally w m.entries j
  pub sized : length m'.entries ≡ length m.entries
  pub mem : m'.mem_size ≡ m.mem_size

abbrev pub nothing : (Entry → ℕ) → ℕ
nothing w = 0

abbrev pub one : Entry → (Entry → ℕ) → ℕ
one e w = w e

pub put_entry-Swaps :
    (m : State) (i : ℕ) (e : Entry)
    → i < m.entry_count
    → m.entry_count ≤ length m.entries
    → Swaps i (one (entry m i)) (one e) m (put_entry m i e)
unfolding count_of
put_entry-Swaps m i e h room = record {
  total = λ w. tally-set w m.entries m.entry_count i e blank h (omega arith);
  low = λ w j below. tally-set_above w m.entries j i e below;
  sized = length-set m.entries i e;
  mem = refl;
}

-- The last entry moves to the free cell.
move_last :
    (w : Entry → ℕ) (xs : List Entry) (n i : ℕ)
    → i ≤ n
    → n < length xs
    → tally w (set xs i (get_or xs n blank)) n + w (get_or xs i blank)
      ≡ tally w xs n + w (get_or xs n blank)
move_last w xs n i h l = elim (dec_lt i n) [
  | yes p ↦ tally-set w xs n i (get_or xs n blank) blank p (omega arith)
  | no p ↦ let e : i ≡ n = omega arith in rw (e, tally-set_above w xs n n _ (omega arith))
]

drop_entry-Swaps :
    (m : State) (i : ℕ)
    → i < m.entry_count
    → m.entry_count ≤ length m.entries
    → ((drop_entry i m).entry_count ≡ m.entry_count - 1)
      × Swaps i (one (entry m i)) nothing m (drop_entry i m)
unfolding count_of drop_entry
drop_entry-Swaps m i h room = elim (Bool-cases (leb 2 m.entry_count)) [
  | inl big ↦ rw big (
    refl,
    record {
      total = λ w. omega (
        arith,
        tally-pred w m.entries m.entry_count blank (omega arith) room,
        move_last w m.entries (m.entry_count - 1) i (omega arith) (omega arith),
      );
      low = λ w j below. tally-set_above w m.entries j i _ below;
      sized = length-set m.entries i _;
      mem = refl;
    },
  )
  | inr small ↦ rw small (
    refl,
    record {
      total = λ w.
          let alone : m.entry_count - 1 ≡ i = ground arith in
          omega (
            arith,
            tally-pred w m.entries m.entry_count blank (omega arith) room,
            ap (λ k. w (entry m k)) alone,
          );
      low = λ w j below. refl;
      sized = refl;
      mem = refl;
    },
  )
]

pub delete_entry-Swaps :
    (m : State) (i : ℕ)
    → i < m.entry_count
    → m.entry_count ≤ length m.entries
    → let r = interval_map_delete_entry m (pos i) in
      (r.0 ≡ pos 0)
      × (r.1.entry_count ≡ m.entry_count - 1)
      × Swaps i (one (entry m i)) nothing m r.1
unfolding interval_map_delete_entry count_of
delete_entry-Swaps m i h room =
    let live : leb m.entry_count i ≡ false = ground arith in
    let m₁ = close_fd (entry m i).fd m in
    let (cells, count, size) = close_fd_keeps (entry m i).fd m in
    let (fewer, s) = drop_entry-Swaps m₁ i (omega arith) (rw (cells, count) room) in
    rw live (
      refl,
      fewer ∙ ap (λ n. n - 1) count,
      record {
        total = λ w.
            omega
              (arith, s.total w, ap₂ (tally w) cells count, ap (λ xs. w (get_or xs i blank)) cells);
        low = λ w j below. s.low w j below ∙ ap (λ xs. tally w xs j) cells;
        sized = s.sized ∙ ap length cells;
        mem = s.mem ∙ size;
      },
    )

-- A new entry is appended behind the live ones.
pub add_entry-Swaps :
    (m : State) (start end : ℕ) (fd : ℤ)
    → m.entry_count < m.mem_size
    → start < end
    → m.mem_size ≤ length m.entries
    → let r = interval_map_add_entry m start end fd in
      (r.0 ≡ pos 0)
      × (r.1.entry_count ≡ suc m.entry_count)
      × Swaps m.entry_count nothing (one (record { start = start; end = end; fd = fd })) m r.1
unfolding count_of interval_map_add_entry
add_entry-Swaps m start end fd h lt room =
    let live : leb m.mem_size m.entry_count ≡ false = ground arith in
    let some_range : leb end start ≡ false = ground arith in
    rw (live, some_range)
      (
        refl,
        refl,
        record {
          total = λ w.
              let e : Entry = record { start = start; end = end; fd = fd } in
              let n = m.entry_count in
              omega (
                arith,
                tally-suc w (set m.entries n e) n blank (rw length-set (omega arith)),
                ap w (get_or-set_self m.entries n e blank (omega arith)),
                tally-set_above w m.entries n n e (omega arith),
              );
          low = λ w j below. tally-set_above w m.entries j _ _ below;
          sized = length-set m.entries _ _;
          mem = refl;
        },
      )

-- Two changes in a row; the second leaves the cells below i alone too.
pub Swaps-trans :
    {i k : ℕ} {out in_ in' : (Entry → ℕ) → ℕ} {m m₁ m₂ : State}
    → i ≤ k
    → Swaps i out in_ m m₁
    → Swaps k nothing in' m₁ m₂
    → Swaps i out (λ w. in_ w + in' w) m m₂
Swaps-trans le s t = record {
  total = λ w. omega (arith, s.total w, t.total w);
  low = λ w j below. t.low w j (omega arith) ∙ s.low w j below;
  sized = t.sized ∙ s.sized;
  mem = t.mem ∙ s.mem;
}
