-- ===== src/CacheSim/NextLine.antt =====
-- The line behind the last one referenced, in plugins/cachesim/cachesim_model.c.
use native.Mathlib.Nat.{mul-div_cancel, one-le-pow}
use mambo.Base.{
  ℕ, suc, ◌+◌, ◌*◌, ◌/◌, ◌%◌, ◌^◌, ◌<◌, ◌≤◌, ◌≡◌, ◌∙◌, refl, sym, ap, Bool, true, false, List, [],
  ◌∷◌, ltb, ◌==◌, length, ℤ, ok, ◌>>=◌, Returns, arith,
}
use mambo.CacheSim.{Model}
use mambo.CacheSim.Reference.{ParentRef, count_references, touch, ref_loop, ref_at, cachesim_ref}
use mambo.CacheSim.Geometry.{Always, Always-ok, Always->>=, Same, dirty-misses, touch-Same}

module _ (random : Model → ℕ) (lock unlock : ℤ) (unset : ℕ) (parent_ref : ParentRef) where
  -- A reference within one line takes one round.
  one_line :
      (fuel : ℕ) (cache : Model) (parents : List Model) (addr end line : ℕ) (is_write : Bool)
      → addr < end
      → end ≤ addr + cache.line_size
      → addr + cache.line_size < 2 ^ 64
      → ref_loop random lock unlock unset parent_ref
          (suc (suc fuel))
          cache
          parents
          addr
          end
          line
          is_write
        ≡ (touch random lock unlock unset parent_ref cache parents addr is_write
            >>= λ (cache', parents', line'). ok (
                record cache' { last_addr = addr + cache.line_size; last_line = line' } ∷ parents'))
  unfolding ref_loop
  one_line fuel cache parents addr end line is_write more last fits =
      let go : ltb addr end ≡ true = ground arith in
      let next : (addr + cache.line_size) % 2 ^ 64 ≡ addr + cache.line_size = omega (arith, fits) in
      let stop : ltb (addr + cache.line_size) end ≡ false = ground arith in rw (go, next, stop) refl

  -- After the reference of a line, the cache keeps the address behind it.
  abbrev Ended : Model → ℕ → List Model → Type 0
  Ended cache addr [] = ⊥
  Ended cache addr (after ∷ parents) = (after.last_addr ≡ addr + cache.line_size) × Same cache after

  one_line-Ended :
      (fuel : ℕ) (cache : Model) (parents : List Model) (addr end line : ℕ) (is_write : Bool)
      → addr < end
      → end ≤ addr + cache.line_size
      → addr + cache.line_size < 2 ^ 64
      → Always
          (ref_loop random lock unlock unset parent_ref
            (suc (suc fuel))
            cache
            parents
            addr
            end
            line
            is_write)
          (Ended cache addr)
  one_line-Ended fuel cache parents addr end line is_write more last fits =
      rw (one_line fuel cache parents addr end line is_write more last fits) (
        Always->>= (touch random lock unlock unset parent_ref cache parents addr is_write)
          (λ (cache', parents', line').
            ok (record cache' { last_addr = addr + cache.line_size; last_line = line' } ∷ parents'))
          (Ended cache addr)
          (λ r e.
            Always-ok (Ended cache addr) _ (
              refl,
              touch-Same random lock unlock unset parent_ref cache parents addr is_write r e,
            )))

  -- A reference of the address that was kept misses nowhere.
  one_line_kept :
      (fuel : ℕ) (cache : Model) (parents : List Model) (addr end line : ℕ) (is_write : Bool)
      → cache.last_addr ≡ addr
      → addr < end
      → end ≤ addr + cache.line_size
      → addr + cache.line_size < 2 ^ 64
      → Returns
          (ref_loop random lock unlock unset parent_ref
            (suc (suc fuel))
            cache
            parents
            addr
            end
            line
            is_write)
          λ caches. (after : Model) × (caches ≡ after ∷ parents) × (after.misses ≡ cache.misses)
  unfolding touch
  one_line_kept fuel cache parents addr end line is_write kept more last fits =
      let same : (addr == cache.last_addr) ≡ true = ground (arith, kept) in
      rw (one_line fuel cache parents addr end line is_write more last fits, same)
        (_, refl, (_, refl, dirty-misses cache cache.last_line is_write))

-- The first address of the line with a number.
aligned :
    (k line_size shift : ℕ)
    → line_size ≡ 2 ^ shift
    → k * line_size / 2 ^ shift * 2 ^ shift ≡ k * line_size
aligned k line_size shift power =
    let e : k * 2 ^ shift / 2 ^ shift ≡ k = mul-div_cancel k (one-le-pow shift 2 (omega arith)) in
    rw power (ap (λ q. q * 2 ^ shift) e)

-- The loop of a reference that begins at the first address of a line.
ref_line :
    (random : Model → ℕ) (lock unlock : ℤ) (unset : ℕ) (cache : Model) (parents : List Model)
    (addr size : ℕ) (is_write : Bool)
    → addr / 2 ^ cache.set_shift * 2 ^ cache.set_shift ≡ addr
    → addr + size < 2 ^ 64
    → cachesim_ref random lock unlock unset (cache ∷ parents) addr size is_write
      ≡ ref_loop random lock unlock unset
          (ref_at random lock unlock unset (length parents))
          (suc (suc (size + cache.line_size)))
          (count_references cache addr size is_write)
          parents
          addr
          (addr + size)
          unset
          is_write
unfolding cachesim_ref ref_at
ref_line random lock unlock unset cache parents addr size is_write first fits =
    let end : (addr + size) % 2 ^ 64 ≡ addr + size = omega (arith, fits) in
    ap
      (λ a.
        ref_loop random lock unlock unset (ref_at random lock unlock unset (length parents))
          (suc (suc (size + cache.line_size))) (count_references cache addr size is_write) parents a
          ((addr + size) % 2 ^ 64) unset is_write)
      first
    ∙ ap
        (λ e.
          ref_loop random lock unlock unset (ref_at random lock unlock unset (length parents))
            (suc (suc (size + cache.line_size))) (count_references cache addr size is_write) parents
            addr e unset is_write)
        end

-- For a cache whose line size is two to its shift: if the line number k is referenced, in any part of
-- it from its first byte on, and the simulation returns, then a reference of the line k + 1, of which
-- nothing need be in the cache, returns, counts no miss and does not ask the parents.
pub cachesim_ref_next_line :
    (random : Model → ℕ) (lock unlock : ℤ) (unset : ℕ) (cache after : Model)
    (parents parents' : List Model) (k size next_size : ℕ) (is_write next_write : Bool)
    → cache.line_size ≡ 2 ^ cache.set_shift
    → 0 < size
    → size ≤ cache.line_size
    → 0 < next_size
    → next_size ≤ cache.line_size
    → suc (suc k) * cache.line_size < 2 ^ 64
    → cachesim_ref random lock unlock unset (cache ∷ parents) (k * cache.line_size) size is_write
      ≡ ok (after ∷ parents')
    → Returns
        (cachesim_ref random lock unlock unset
          (after ∷ parents')
          (suc k * cache.line_size)
          next_size
          next_write)
        λ caches. (last : Model) × (caches ≡ last ∷ parents') × (last.misses ≡ after.misses)
cachesim_ref_next_line random lock unlock unset cache after parents parents' k size next_size
      is_write next_write power some_byte fits some_next next_fits room run =
    let l = cache.line_size in
    let next : suc k * l ≡ k * l + l = omega arith in
    let after_next : suc (suc k) * l ≡ k * l + l + l = omega arith in
    let loop =
      ref_line random lock unlock unset cache parents (k * l) size is_write
        (aligned k l cache.set_shift power) (omega (arith, room, after_next)) in
    let (kept, (same_size, same_shift)) =
      one_line-Ended random lock unlock unset (ref_at random lock unlock unset (length parents))
        (size + l) (count_references cache (k * l) size is_write) parents (k * l) (k * l + size)
        unset is_write (omega arith) (omega (arith, fits)) (omega (arith, room, after_next))
        (after ∷ parents') (sym loop ∙ run) in
    let power' : l ≡ 2 ^ after.set_shift = power ∙ ap (λ e. 2 ^ e) (sym same_shift) in
    let loop' =
      ref_line random lock unlock unset after parents' (suc k * l) next_size next_write
        (aligned (suc k) l after.set_shift power') (omega (arith, room, next, after_next)) in
    rw loop' (
      one_line_kept random lock unlock unset (ref_at random lock unlock unset (length parents'))
        (next_size + after.line_size) (count_references after (suc k * l) next_size next_write)
        parents' (suc k * l) (suc k * l + next_size) unset next_write (kept ∙ sym next)
        (omega arith) (omega (arith, next_fits, same_size))
        (omega (arith, room, next, after_next, same_size)))
