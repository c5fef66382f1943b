-- ===== src/CacheSim.antt =====
-- plugins/cachesim/cachesim_model.c and cachesim_model.h: the simulated cache. A cache and its parents
-- are a list, the cache itself first. Counters are not bounded; what `random`, `__builtin_ctz` and the
-- calls of the C library return is a parameter, and so is the value of a variable that is never set.
pub mod Reference
pub mod Geometry
pub mod NextLine
mod Tests
use Prim.Native.Nat.{bit_and, bit_or}
use mambo.Base.{
  ℕ, zero, suc, ◌+◌, ◌-◌, ◌*◌, ◌/◌, ◌%◌, ◌^◌, Bool, true, false, not, ◌&&◌, ◌||◌, Option, none,
  some, List, ltb, leb, ◌==◌, if◌then◌else◌, get_or, set, replicate, ℤ, is_zero, Outcome, ok, abort,
}

pub data Policy : Type 0 where
  replace_random : Policy
  replace_lru : Policy
  unimplemented : ℕ → Policy

pub record Line : Type 0 where
  pub tag : ℕ
  pub timestamp : ℕ

-- An array of two counters, for reads and writes.
pub record Counter : Type 0 where
  pub reads : ℕ
  pub writes : ℕ

pub record Model : Type 0 where
  pub size : ℕ
  pub line_size : ℕ
  pub max_fetch : ℕ
  pub assoc : ℕ
  pub replacement_policy : Policy
  pub sets : ℕ
  pub set_shift : ℕ
  pub set_mask : ℕ
  pub tag_shift : ℕ
  pub max_fetch_shift : ℕ
  pub last_addr : ℕ
  pub last_line : ℕ
  pub references : Counter
  pub misses : Counter
  pub writebacks : Counter
  pub lines : List Line

abbrev pub null_line : Line
null_line = record { tag = 0; timestamp = 0 }

abbrev pub line_at : Model → ℕ → Line
line_at cache i = get_or cache.lines i null_line

abbrev pub put_line : Model → ℕ → Line → Model
put_line cache i line = record cache { lines = set cache.lines i line }

abbrev pub add_to : Counter → Bool → ℕ → Counter
add_to counter true n = record counter { writes = counter.writes + n }
add_to counter false n = record counter { reads = counter.reads + n }

unfoldable pub is_pow2 : ℕ → Bool
is_pow2 val = bit_and val ((val + 2 ^ 32 - 1) % 2 ^ 32) == 0

unfoldable pub cachesim_get_set : Model → ℕ → ℕ
cachesim_get_set cache addr = bit_and (addr / 2 ^ cache.set_shift) cache.set_mask

unfoldable pub cachesim_get_tag : Model → ℕ → ℕ
cachesim_get_tag cache addr = addr / 2 ^ cache.tag_shift

-- `fails` is whether the mutex or the memory cannot be had. None is -1. Products are of unsigned ints;
-- the name is left out.
unfoldable pub cachesim_model_init : (ℕ → ℕ) → Bool → Model → ℕ → ℕ → ℕ → ℕ → Policy → Option Model
cachesim_model_init ctz fails cache size line_size max_fetch assoc repl_policy =
    let way = assoc * line_size % 2 ^ 32 in
    let sets = size / way in
    let fetch = if not (max_fetch == 0) then max_fetch else line_size in
    if (size == 0)
      || (line_size == 0)
      || (assoc == 0)
      || not (is_pow2 line_size)
      || not (is_pow2 max_fetch)
      || ltb size way
      || not (size % way == 0)
    then none
    else if not (is_pow2 sets)
    then none
    else if fails
    then none
    else some (record cache {
      lines = replicate (sets * assoc) null_line;
      max_fetch = fetch;
      size = size;
      line_size = line_size;
      assoc = assoc;
      replacement_policy = repl_policy;
      sets = sets;
      set_shift = ctz line_size;
      set_mask = sets - 1;
      tag_shift = ctz sets + ctz line_size;
      max_fetch_shift = ctz fetch;
      references = record { reads = 0; writes = 0 };
      misses = record { reads = 0; writes = 0 };
      writebacks = record { reads = 0; writes = 0 };
    })

-- A dirty line is written back before its tag is replaced.
unfoldable pub cachesim_load_line : Model → ℕ → ℕ → Bool → Model
cachesim_load_line cache line_index addr is_write =
    let dirty = bit_and (line_at cache line_index).tag 1 == 1 in
    let counted : Model =
      if dirty then record cache { writebacks = add_to cache.writebacks is_write 1 } else cache in
    put_line counted line_index
      (record (line_at cache line_index) { tag = cachesim_get_tag cache addr * 2 % 2 ^ 64 })

-- The ways from i on, with the least timestamp so far and its way.
unfoldable pub least_way : ℕ → Model → ℕ → ℕ → ℕ → Option ℕ → Option ℕ
least_way zero cache line_index i min_timestamp line = line
least_way (suc left) cache line_index i min_timestamp line =
    let timestamp = (line_at cache (line_index + i)).timestamp in
    if ltb timestamp min_timestamp
    then least_way left cache line_index (suc i) timestamp (some i)
    else least_way left cache line_index (suc i) min_timestamp line

-- The way to replace; none is -1.
unfoldable pub cachesim_evict_line : (Model → ℕ) → Model → ℕ → Outcome (Option ℕ)
cachesim_evict_line random cache line_index = elim cache.replacement_policy [
  | Policy.replace_random ↦ ok (some (random cache % cache.assoc))
  | Policy.replace_lru ↦ ok (least_way cache.assoc cache line_index 0 (2 ^ 64 - 1) none)
  | Policy.unimplemented n ↦ abort
]

unfoldable pub update_dirty_bit : Model → ℕ → Bool → Model
update_dirty_bit cache line is_write =
    if is_write
    then put_line cache line
        (record (line_at cache line) { tag = bit_or (line_at cache line).tag 1 })
    else cache

unfoldable pub update_line : Model → ℕ → Bool → Model
update_line cache line is_write =
    let marked = update_dirty_bit cache line is_write in
    put_line marked line (record (line_at marked line) {
      timestamp = cache.references.reads + cache.references.writes;
    })
