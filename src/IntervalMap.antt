-- ===== src/IntervalMap.antt =====
-- common.c: the interval map, the array of address ranges that dbm.c keeps of the executable
-- mappings. `State` is `struct interval_map` with its array, the slots behind `entry_count`
-- included, and what the kernel has seen: the number of calls, and the descriptors closed.
pub mod Tally
pub mod Round
pub mod Delete
mod Tests
pub mod Add
pub mod Loss
pub mod Search
use mambo.Base.{
  ℕ, zero, suc, ◌-◌, Bool, true, false, not, ◌&&◌, List, ◌∷◌, ltb, leb, ◌==◌, if◌then◌else◌, get_or,
  set, min, max, ℤ, pos, negsuc, minus_one, is_negative, is_zero, Outcome, ok, ◌>>=◌, ◌>>◌, assert,
  Option, none, some,
}

-- `interval_map_entry`
pub record Entry : Type 0 where
  pub start : ℕ
  pub end : ℕ
  pub fd : ℤ

pub record State : Type 0 where
  pub mem_size : ℕ
  pub entry_count : ℕ
  pub entries : List Entry
  pub calls : ℕ
  pub closed : List ℤ

-- The C library: what its functions return at the n-th call of all.
pub record Os : Type 0 where
  pub dup : ℕ → ℤ → ℤ
  pub lock : ℕ → ℤ
  pub unlock : ℕ → ℤ
  pub mutex_init : ℕ → ℤ

abbrev pub blank : Entry
blank = record { start = 0; end = 0; fd = minus_one }

-- `imap->entries[i]`
abbrev pub entry : State → ℕ → Entry
entry m i = get_or m.entries i blank

abbrev pub put_entry : State → ℕ → Entry → State
put_entry m i e = record m { entries = set m.entries i e }

abbrev pub called : State → State
called m = record m { calls = suc m.calls }

-- `(start < entry.end) && (end > entry.start)`
abbrev pub overlaps : ℕ → ℕ → Entry → Bool
overlaps start end e = ltb start e.end && ltb e.start end

-- `if (fd >= 0) close(fd)`
pub close_fd : ℤ → State → State
close_fd (pos n) m = record m { calls = suc m.calls; closed = pos n ∷ m.closed }
close_fd (negsuc n) m = m

-- The last entry takes the place of entry i, if there are two or more, and the count falls.
pub drop_entry : ℕ → State → State
drop_entry i m =
    if leb 2 m.entry_count
    then record m {
      entry_count = m.entry_count - 1;
      entries = set m.entries i (entry m (m.entry_count - 1));
    }
    else record m { entry_count = m.entry_count - 1 }

-- Called with the lock held. The index is an `ssize_t`.
pub interval_map_delete_entry : State → ℤ → ℤ × State
interval_map_delete_entry m (negsuc i) = (minus_one, m)
interval_map_delete_entry m (pos i) =
    if leb m.entry_count i
    then (minus_one, m)
    else (pos 0, drop_entry i (close_fd (entry m i).fd m))

pub interval_map_add_entry : State → ℕ → ℕ → ℤ → ℤ × State
interval_map_add_entry m start end fd =
    if leb m.mem_size m.entry_count
    then (minus_one, m)
    else if leb end start
    then (minus_one, m)
    else (let index = m.entry_count in
        let m₁ = record m { entry_count = suc m.entry_count } in
        (pos 0, put_entry m₁ index (record { start = start; end = end; fd = fd })))

-- `EBUSY` of Linux.
abbrev is_ebusy : ℤ → Bool
is_ebusy (pos n) = n == 16
is_ebusy (negsuc n) = false

-- `malloc` gives an array of `size` cells of any content, or NULL. A failed `pthread_mutex_init`
-- leaves the fields set.
unfoldable interval_map_init : Os → State → ℕ → Option (List Entry) → Outcome (ℤ × State)
interval_map_init os m size none = do assert (ltb 0 size); ok (minus_one, m)
interval_map_init os m size (some cells) = do
  assert (ltb 0 size)
  let ret = os.mutex_init m.calls
  let m₁ = called (record m { mem_size = size; entry_count = 0; entries = cells })
  ok (if not (is_zero ret) && not (is_ebusy ret) then minus_one else pos 0, m₁)

-- `if (fd >= 0) { fd = dup(fd); assert(fd >= 0); }`
pub dup_fd : Os → ℤ → State → Outcome (ℤ × State)
dup_fd os (negsuc n) m = ok (negsuc n, m)
dup_fd os (pos n) m = do
  let fd = os.dup m.calls (pos n)
  assert (not (is_negative fd))
  ok (fd, called m)

-- `pthread_mutex_lock` round a body; the body's result is returned if the unlock succeeds too.
pub locked : Os → State → (State → Outcome (ℤ × State)) → Outcome (ℤ × State)
locked os m body = if not (is_zero (os.lock m.calls)) then ok (minus_one, called m) else (do
  (result, m₁) ← body (called m)
  let ret = os.unlock m₁.calls
  ok (if not (is_zero ret) then minus_one else result, called m₁))

-- One round of the loop of `interval_map_delete`, at index i.
pub delete_round : Os → ℕ → ℕ → ℕ → ℕ → State → Outcome (ℕ × State)
delete_round os start end i status m =
    let e = entry m i in
    if not (overlaps start end e)
    then ok (status, m)
    else if leb start e.start && leb e.end end
    then (do
      let r = interval_map_delete_entry m (pos i)
      assert (is_zero r.0)
      ok (suc status, r.1))
    else if start == e.start && ltb end e.end
    then ok (suc status, put_entry m i (record e { start = end }))
    else if end == e.end && ltb e.start start
    then ok (suc status, put_entry m i (record e { end = start }))
    else (do
      (fd, m₁) ← dup_fd os e.fd (put_entry m i (record e { end = start }))
      let r = interval_map_add_entry m₁ end e.end fd
      assert (is_zero r.0)
      ok (suc status, r.1))

-- The rounds at the indices below i, downwards.
pub delete_rounds : Os → ℕ → ℕ → ℕ → ℕ → State → Outcome (ℕ × State)
delete_rounds os start end zero status m = ok (status, m)
delete_rounds os start end (suc i) status m = do
  (status', m') ← delete_round os start end i status m
  delete_rounds os start end i status' m'

pub interval_map_delete : Os → State → ℕ → ℕ → Outcome (ℤ × State)
interval_map_delete os m start end =
    if leb end start
    then ok (minus_one, m)
    else locked os m
        λ m₁. do (status, m₂) ← delete_rounds os start end m₁.entry_count 0 m₁; ok (pos status, m₂)

-- The loop of `interval_map_search` over the indices below i.
pub search_rounds : ℕ → ℕ → ℕ → ℕ → State → ℕ
search_rounds start end zero status m = status
search_rounds start end (suc i) status m =
    search_rounds start end i (if overlaps start end (entry m i) then suc status else status) m

pub interval_map_search : Os → State → ℕ → ℕ → Outcome (ℤ × State)
interval_map_search os m start end =
    if leb end start
    then ok (minus_one, m)
    else locked os m λ m₁. ok (pos (search_rounds start end m₁.entry_count 0 m₁), m₁)

-- `(addr >= entry.start) && (addr < entry.end)`
abbrev pub holds : ℕ → Entry → Bool
holds addr e = leb e.start addr && ltb addr e.end

-- The loop of `interval_map_search_by_addr`: the entry copied out, if one is found.
pub find_round : ℕ → ℕ → State → Option Entry
find_round addr zero m = none
find_round addr (suc i) m =
    let rest = find_round addr i m in if holds addr (entry m i) then some (entry m i) else rest

abbrev pub found_code : Option Entry → ℤ
found_code none = pos 0
found_code (some e) = pos 1

-- The flag says that the caller's pointer is not NULL; `*entry` is the second result.
pub interval_map_search_by_addr : Os → State → ℕ → Bool → Outcome (ℤ × Option Entry × State)
interval_map_search_by_addr os m addr false = ok (minus_one, none, m)
interval_map_search_by_addr os m addr true =
    if not (is_zero (os.lock m.calls)) then ok (minus_one, none, called m) else (do
      let m₁ = called m
      let hit = find_round addr m₁.entry_count m₁
      assert (is_zero (os.unlock m₁.calls))
      ok (found_code hit, hit, called m₁))

-- The variables of the loop of `interval_map_add`; `overlap_ind` is none for -1.
pub record Merge : Type 0 where
  pub start : ℕ
  pub end : ℕ
  pub overlap_ind : Option ℕ
  pub map : State

abbrev pub widen : State → ℕ → ℕ → ℕ → State
widen m i start end =
    put_entry m i
      (record (entry m i) { start = min (entry m i).start start; end = max (entry m i).end end })

-- The body for an entry that overlaps, with the first overlap's index, if it is known.
pub merge_at : ℕ → Option ℕ → Merge → Outcome Merge
merge_at i none s = ok (record s { overlap_ind = some i; map = widen s.map i s.start s.end })
merge_at i (some k) s = do
  let start = min (entry s.map i).start s.start
  let end = max (entry s.map i).end s.end
  let r = interval_map_delete_entry s.map (pos i)
  assert (is_zero r.0)
  ok (record { start = start; end = end; overlap_ind = some k; map = widen r.1 k start end })

pub add_round : ℤ → ℕ → Merge → Outcome Merge
add_round fd i s =
    let e = entry s.map i in
    if not (overlaps s.start s.end e)
    then ok s
    else (do assert (is_negative fd && is_negative e.fd); merge_at i s.overlap_ind s)

pub add_rounds : ℤ → ℕ → Merge → Outcome Merge
add_rounds fd zero s = ok s
add_rounds fd (suc i) s = do s' ← add_round fd i s; add_rounds fd i s'

-- After the loop.
pub add_new : ℤ → Option ℕ → Merge → Outcome (ℤ × State)
add_new fd (some k) s = ok (pos 0, s.map)
add_new fd none s = do
  let r = interval_map_add_entry s.map s.start s.end fd
  assert (is_zero r.0)
  ok (pos 0, r.1)

pub interval_map_add : Os → State → ℕ → ℕ → ℤ → Outcome (ℤ × State)
interval_map_add os m start end fd = if leb end start then ok (minus_one, m) else (do
  (fd', m₁) ← dup_fd os fd m
  locked os m₁ λ m₂. do
    s ←
        add_rounds fd' m₂.entry_count
          (record { start = start; end = end; overlap_ind = none; map = m₂ })
    add_new fd' s.overlap_ind s)
