-- ===== src/Dbm/Flush.antt =====
-- A flush of the code cache forgets every translation, and blocks are allocated below the reserve.
use mambo.Base.{
  ℕ, zero, suc, ◌+◌, ◌-◌, ◌≤◌, ◌<◌, ◌≡◌, ◌≢◌, ◌∙◌, refl, true, none, List, ltb, leb, ◌==◌, length,
  length-set, get_or, get_or-set_self, get_or-set_ne, ok, arith, Bool-cases, inl, inr, Returns,
}
use mambo.CodeHash.{code_cache_hash_overp, uint_max}
use mambo.CodeHash.Lookup.{IsValid, hash_init_lem}
use mambo.LinkedList.{linked_list_init}
use mambo.Dbm.{BranchType, Meta, Thread, Sizes, null_meta}
use mambo.Dbm.Cache.{
  meta_at, clear_meta, flush_code_cache, cc_lookup, allocate_bb, allocate_bb_overflow,
}

-- A block without a branch, a link, or a fragment in its place.
abbrev pub Blank : Meta → Type 0
Blank meta =
    (meta.exit_branch_type ≡ BranchType.unknown) × (meta.linked_from ≡ none) × (meta.actual_id ≡ 0)

length-clear_meta : (n : ℕ) (metas : List Meta) → length (clear_meta n metas) ≡ length metas
unfolding clear_meta
length-clear_meta zero metas = refl
length-clear_meta (suc i) metas = length-set (clear_meta i metas) i _ ∙ length-clear_meta i metas

clear_meta-Blank :
    (n j : ℕ) (metas : List Meta)
    → j < n
    → n ≤ length metas
    → Blank (get_or (clear_meta n metas) j null_meta)
unfolding clear_meta
clear_meta-Blank zero j metas h room = absurd (omega arith)
clear_meta-Blank (suc i) j metas h room =
    let sized = length-clear_meta i metas in
    elim (Bool-cases (i == j)) [
      | inl same ↦
          let e : j ≡ i = ground arith in
          rw (e, get_or-set_self (clear_meta i metas) i _ null_meta (omega (arith, sized)))
            (refl, refl, refl)
      | inr other ↦
          rw (get_or-set_ne (clear_meta i metas) i j _ null_meta (ground arith))
            (clear_meta-Blank i j metas (ground arith) (omega arith))
    ]

-- The tables of the thread are as large as the constants say.
pub record Sized (c : Sizes) (t : Thread) : Type 0 where
  pub cells : length t.entry_address.entries ≡ c.hash_size
  pub reserve : code_cache_hash_overp < c.hash_size
  pub links : 1 ≤ c.max_cc_links
  pub metas : c.code_cache_size ≤ length t.code_cache_meta

-- The hash table is valid, no address has a translation, and no block is in use.
abbrev pub Emptied : Sizes → ℕ → Thread → Type 0
Emptied c shift t =
    (t.was_flushed ≡ true)
    × IsValid shift t.entry_address
    × ((key : ℕ) → key ≢ 0 → cc_lookup shift t key ≡ ok uint_max)
    × ((i : ℕ) → i < c.code_cache_size → Blank (meta_at t i))

-- In a thread with tables of their sizes, `flush_code_cache` returns; the hash table is valid then, no
-- lookup finds an address other than 0, every block of the cache is blank, and the first block behind the trampolines is free.
pub flush_code_cache_lem :
    (c : Sizes) (shift : ℕ) (t : Thread)
    → Sized c t
    → Returns
        (flush_code_cache c t)
        λ t'. (t'.free_block ≡ c.trampolines_size_bbs) × Emptied c shift t'
unfolding flush_code_cache linked_list_init cc_lookup
flush_code_cache_lem c shift t sized =
    let some_link : leb 1 c.max_cc_links ≡ true = ground (arith, sized.links) in
    rw some_link (
      _,
      refl,
      (
        refl,
        (
          refl,
          (hash_init_lem shift t.entry_address c.hash_size 1 sized.cells sized.reserve
              (λ e. omega (arith, e))).0,
          λ key h.
              (hash_init_lem shift t.entry_address c.hash_size key sized.cells sized.reserve h).1,
          λ i h. clear_meta-Blank c.code_cache_size i t.code_cache_meta h sized.metas,
        ),
      ),
    )

-- In a thread with tables of their sizes, with the trampolines below the reserve and the next free
-- block not among them: `allocate_bb` returns a block behind the trampolines and below the reserve,
-- and the next free block is the one behind it. It is the next free block, if that lies below the
-- reserve; otherwise it is the first behind the trampolines, and the cache is emptied. As many
-- overflow blocks as the reserve has then follow without a gap.
pub allocate_bb_lem :
    (c : Sizes) (shift : ℕ) (t : Thread)
    → Sized c t
    → c.trampolines_size_bbs < c.code_cache_size - c.code_cache_overp
    → c.trampolines_size_bbs ≤ t.free_block
    → Returns (allocate_bb c t) λ (bb, t').
      (c.trampolines_size_bbs ≤ bb)
      × (bb < c.code_cache_size - c.code_cache_overp)
      × (t'.free_block ≡ suc bb)
      × (t.free_block < c.code_cache_size - c.code_cache_overp → bb ≡ t.free_block)
      × (c.code_cache_size - c.code_cache_overp ≤ t.free_block
          → (bb ≡ c.trampolines_size_bbs) × Emptied c shift t')
      × ((i : ℕ)
          → i < c.code_cache_overp
          → let next = suc bb + i in
            allocate_bb_overflow c (record t' { free_block = next })
            ≡ ok (next, record t' { free_block = suc next }))
unfolding allocate_bb allocate_bb_overflow cc_lookup
allocate_bb_lem c shift t sized room behind =
    let limit = c.code_cache_size - c.code_cache_overp in
    elim (Bool-cases (leb limit t.free_block)) [
      | inr below ↦ rw below (
        _,
        refl,
        (
          behind,
          ground arith,
          refl,
          λ _. refl,
          λ full. absurd (ground (arith, full)),
          λ i h.
              (let fits : ltb (suc t.free_block + i) c.code_cache_size ≡ true = ground (arith, h) in
                rw fits refl),
        ),
      )
      | inl full ↦
          let (t', run, (first, emptied)) = flush_code_cache_lem c shift t sized in
          rw (full, run)
            (
              _,
              refl,
              (
                omega (arith, first),
                omega (arith, first, room),
                refl,
                λ low. absurd (ground (arith, low)),
                λ _. (first, emptied),
                λ i h.
                    (let fits : ltb (suc t'.free_block + i) c.code_cache_size ≡ true =
                        ground (arith, first, h, room) in
                      rw fits refl),
              ),
            )
    ]
