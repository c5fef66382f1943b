-- ===== src/CacheSim/Geometry.antt =====
-- A round of `cachesim_ref` leaves the geometry of the cache.
use Prim.Native.Nat.{bit_and}
use mathlib.Core.Path.{subst}
use mambo.Base.{
  ℕ, ◌-◌, ◌*◌, ◌/◌, ◌≡◌, ◌∙◌, refl, sym, ap, Bool, true, false, List, ◌==◌, ℤ, Outcome, ok, abort,
  hang, ◌>>=◌, Bool-cases, Option-cases, inl, inr,
}
use mambo.CacheSim.{
  cachesim_evict_line, Model, line_at, update_dirty_bit, update_line, cachesim_load_line,
  cachesim_get_set, cachesim_get_tag, add_to,
}
use mambo.CacheSim.Reference.{
  Touched, ParentRef, find_way, swap_ways, way_index, replace, ask_parents, miss, touch,
}

-- Every result satisfies the predicate.
abbrev pub Always : {A : Type 0} → Outcome A → (A → Type 0) → Type 0
Always {A} m P = (a : A) → m ≡ ok a → P a

IsResult : {A : Type 0} → Outcome A → Type 0
IsResult (ok a) = Unit {0}
IsResult abort = ⊥
IsResult hang = ⊥

Always-abort : {A : Type 0} (P : A → Type 0) → Always abort P
unfolding IsResult
Always-abort P a e = absurd (subst IsResult (sym e) tt)

Always-hang : {A : Type 0} (P : A → Type 0) → Always hang P
unfolding IsResult
Always-hang P a e = absurd (subst IsResult (sym e) tt)

result_of : {A : Type 0} → A → Outcome A → A
result_of d (ok a) = a
result_of d abort = d
result_of d hang = d

pub Always-ok : {A : Type 0} (P : A → Type 0) (a : A) → P a → Always (ok a) P
unfolding result_of
Always-ok P a h b e = subst P (ap (result_of a) e) h

pub Always->>= :
    {A B : Type 0} (m : Outcome A) (f : A → Outcome B) (P : B → Type 0)
    → ((a : A) → m ≡ ok a → Always (f a) P)
    → Always (m >>= f) P
Always->>= (ok a) f P h = h a refl
Always->>= abort f P h = Always-abort P
Always->>= hang f P h = Always-hang P

-- A round leaves the geometry.
abbrev pub Same : Model → Model → Type 0
Same cache after = (after.line_size ≡ cache.line_size) × (after.set_shift ≡ cache.set_shift)

dirty-Same :
    (cache : Model) (line : ℕ) (is_write : Bool) → Same cache (update_dirty_bit cache line is_write)
unfolding update_dirty_bit
dirty-Same cache line true = (refl, refl)
dirty-Same cache line false = (refl, refl)

pub dirty-misses :
    (cache : Model) (line : ℕ) (is_write : Bool)
    → (update_dirty_bit cache line is_write).misses ≡ cache.misses
unfolding update_dirty_bit
dirty-misses cache line true = refl
dirty-misses cache line false = refl

update-Same :
    (cache : Model) (line : ℕ) (is_write : Bool) → Same cache (update_line cache line is_write)
unfolding update_line
update-Same cache line is_write = dirty-Same cache line is_write

load-Same :
    (cache : Model) (line addr : ℕ) (is_write : Bool)
    → Same cache (cachesim_load_line cache line addr is_write)
unfolding cachesim_load_line
load-Same cache line addr is_write = elim (Bool-cases (bit_and (line_at cache line).tag 1 == 1)) [
  | inl dirty ↦ rw dirty (refl, refl)
  | inr clean ↦ rw clean (refl, refl)
]

replaced-Same :
    (cache : Model) (line addr : ℕ) (is_write : Bool)
    → Same cache (update_line (cachesim_load_line cache line addr is_write) line is_write)
replaced-Same cache line addr is_write =
    let loaded = cachesim_load_line cache line addr is_write in
    let (a, b) = load-Same cache line addr is_write in
    let (c, d) = update-Same loaded line is_write in (c ∙ a, d ∙ b)

module _ (random : Model → ℕ) (lock unlock : ℤ) (unset : ℕ) (parent_ref : ParentRef) where
  replace-Same :
      (cache : Model) (addr line : ℕ) (is_write : Bool)
      → Always (replace random lock unlock unset cache addr line is_write) (λ r. Same cache r.0)
  unfolding replace
  replace-Same cache addr line is_write =
      let same = λ (r : Model × ℕ). Same cache r.0 in
      let put = λ (index : ℕ).
        ok (update_line (cachesim_load_line cache index addr is_write) index is_write, index) in
      Always->>= (cachesim_evict_line random cache line)
        (λ way. way_index random lock unlock unset line way >>= put) same
        (λ way _.
          Always->>= (way_index random lock unlock unset line way) put same
            (λ index _. Always-ok same _ (replaced-Same cache index addr is_write)))

  miss-Same :
      (cache : Model) (parents : List Model) (addr line : ℕ) (is_write : Bool)
      → Always
          (miss random lock unlock unset parent_ref cache parents addr line is_write)
          (λ r. Same cache r.0)
  unfolding miss
  miss-Same cache parents addr line is_write =
      let counted : Model = record cache { misses = add_to cache.misses is_write 1 } in
      let same = λ (r : Touched). Same cache r.0 in
      let replaced = replace random lock unlock unset counted addr line is_write in
      Always->>=
        (ask_parents random lock unlock unset parent_ref parents addr cache.line_size is_write)
        (λ parents'. replaced >>= λ (cache', index). ok (cache', parents', index)) same
        (λ parents' _.
          Always->>= replaced (λ (cache', index). ok (cache', parents', index)) same
            (λ r e. Always-ok same _ (replace-Same counted addr line is_write r e)))

  pub touch-Same :
      (cache : Model) (parents : List Model) (addr : ℕ) (is_write : Bool)
      → Always
          (touch random lock unlock unset parent_ref cache parents addr is_write)
          (λ r. Same cache r.0)
  unfolding touch
  touch-Same cache parents addr is_write =
      let line = cachesim_get_set cache addr * cache.assoc in
      let tag = cachesim_get_tag cache addr in
      let same = λ (r : Touched). Same cache r.0 in
      elim (Bool-cases (addr == cache.last_addr)) [
        | inl last ↦ rw last (Always-ok same _ (dirty-Same cache cache.last_line is_write))
        | inr other ↦ elim (Bool-cases ((line_at cache line).tag / 2 == tag)) [
          | inl first ↦ rw (other, first) (Always-ok same _ (dirty-Same cache line is_write))
          | inr differ ↦ elim (Option-cases (find_way (cache.assoc - 1) cache line tag 1)) [
            | inl absent ↦ rw (other, differ, absent) (miss-Same cache parents addr line is_write)
            | inr (i, found) ↦
                rw (other, differ, found)
                  (Always-ok same _ (update-Same (swap_ways cache line i) line is_write))
          ]
        ]
      ]
