-- ===== src/CacheSim/Reference.antt =====
-- `cachesim_ref` of plugins/cachesim/cachesim_model.c.
use Prim.Native.Nat.{bit_and}
use mambo.Base.{
  ℕ, zero, suc, ◌+◌, ◌-◌, ◌*◌, ◌/◌, ◌%◌, ◌^◌, Bool, not, Option, none, some, List, [], ◌∷◌, ltb,
  ◌==◌, if◌then◌else◌, length, ℤ, is_zero, Outcome, ok, abort, hang, assert, ◌>>=◌, ◌>>◌,
}
use mambo.CacheSim.{
  Model, line_at, put_line, add_to, cachesim_get_set, cachesim_get_tag, cachesim_load_line,
  cachesim_evict_line, update_dirty_bit, update_line,
}

-- The way from i on that has the tag.
unfoldable pub find_way : ℕ → Model → ℕ → ℕ → ℕ → Option ℕ
find_way zero cache line tag i = none
find_way (suc left) cache line tag i =
    let rest = find_way left cache line tag (suc i) in
    if (line_at cache (line + i)).tag / 2 == tag then some i else rest

-- The line moves to the first way of its set.
abbrev pub swap_ways : Model → ℕ → ℕ → Model
swap_ways cache line i =
    put_line (put_line cache line (line_at cache (line + i))) (line + i) (line_at cache line)

abbrev pub count_references : Model → ℕ → ℕ → Bool → Model
count_references cache addr size is_write =
    let mask = cache.max_fetch - 1 in
    let t_size = (size + bit_and (addr % 2 ^ 32) mask) % 2 ^ 32 in
    let partial = if not (bit_and t_size mask == 0) then 1 else 0 in
    record cache {
      references = add_to cache.references is_write (t_size / 2 ^ cache.max_fetch_shift + partial);
    }

-- The reference of a line in the parents.
abbrev pub ParentRef : Type 0
ParentRef = List Model → ℕ → ℕ → Bool → Outcome (List Model)

-- The cache, its parents, and `line`.
abbrev pub Touched : Type 0
Touched = Model × List Model × ℕ

module _ (random : Model → ℕ) (lock unlock : ℤ) (unset : ℕ) where
  -- An index before the first line is out of bounds.
  unfoldable pub way_index : ℕ → Option ℕ → Outcome ℕ
  way_index line (some i) = ok (line + i)
  way_index line none = if line == 0 then abort else ok (line - 1)

  unfoldable pub replace : Model → ℕ → ℕ → Bool → Outcome (Model × ℕ)
  replace cache addr line is_write = cachesim_evict_line random cache line >>= λ way.
      way_index line way >>= λ index.
      ok (update_line (cachesim_load_line cache index addr is_write) index is_write, index)

  -- A cache without parents has memory behind it.
  unfoldable pub ask_parents : ParentRef → List Model → ℕ → ℕ → Bool → Outcome (List Model)
  ask_parents parent_ref [] addr size is_write = ok []
  ask_parents parent_ref (parent ∷ rest) addr size is_write =
      assert (is_zero lock)
      >> (parent_ref (parent ∷ rest) addr size is_write >>= λ parents.
          assert (is_zero unlock) >> ok parents)

  -- A cache that misses asks its parents, and replaces a line.
  unfoldable pub miss : ParentRef → Model → List Model → ℕ → ℕ → Bool → Outcome Touched
  miss parent_ref cache parents addr line is_write =
      let counted : Model = record cache { misses = add_to cache.misses is_write 1 } in
      ask_parents parent_ref parents addr cache.line_size is_write >>= λ parents'.
      replace counted addr line is_write >>= λ (cache', index). ok (cache', parents', index)

  -- One round of the loop.
  unfoldable pub touch : ParentRef → Model → List Model → ℕ → Bool → Outcome Touched
  touch parent_ref cache parents addr is_write =
      let line = cachesim_get_set cache addr * cache.assoc in
      let tag = cachesim_get_tag cache addr in
      let missed = miss parent_ref cache parents addr line is_write in
      if addr == cache.last_addr
      then ok (update_dirty_bit cache cache.last_line is_write, parents, cache.last_line)
      else if (line_at cache line).tag / 2 == tag
      then ok (update_dirty_bit cache line is_write, parents, line)
      else elim (find_way (cache.assoc - 1) cache line tag 1) [
        | some i ↦ ok (update_line (swap_ways cache line i) line is_write, parents, line)
        | none ↦ missed
      ]

  -- The loop over the lines; the fuel bounds its rounds.
  unfoldable pub ref_loop :
      ParentRef → ℕ → Model → List Model → ℕ → ℕ → ℕ → Bool → Outcome (List Model)
  ref_loop parent_ref zero cache parents addr end line is_write = hang
  ref_loop parent_ref (suc fuel) cache parents addr end line is_write =
      let rest = touch parent_ref cache parents addr is_write >>= λ (cache', parents', line').
      ref_loop parent_ref fuel cache' parents' ((addr + cache.line_size) % 2 ^ 64) end line'
        is_write in
      if ltb addr end
      then rest
      else ok (record cache { last_addr = addr; last_line = line } ∷ parents)

  -- A line has a byte at least, so that there are at most as many rounds as bytes of the reference
  -- and of one line, and a last test.
  unfoldable pub ref_at : ℕ → ParentRef
  ref_at zero caches addr size is_write = ok caches
  ref_at (suc height) [] addr size is_write = ok []
  ref_at (suc height) (cache ∷ parents) addr size is_write =
      let first = addr / 2 ^ cache.set_shift * 2 ^ cache.set_shift in
      ref_loop (ref_at height) (suc (suc (size + cache.line_size)))
        (count_references cache addr size is_write) parents first ((addr + size) % 2 ^ 64) unset
        is_write

  -- The height of the caches is their number.
  unfoldable pub cachesim_ref : ParentRef
  cachesim_ref caches addr size is_write = ref_at (length caches) caches addr size is_write
