-- ===== src/CacheSim/Tests.antt =====
-- A cache of two lines of sixteen bytes.
use mambo.Base.{◌≡◌, refl, false, true, [], ◌∷◌, pos, ok, Returns, arith}
use mambo.CacheSim.{
  Policy, Model, null_line, cachesim_get_set, cachesim_get_tag, cachesim_load_line, least_way,
  cachesim_evict_line, update_dirty_bit, update_line,
}
use mambo.CacheSim.Reference.{
  find_way, way_index, replace, ask_parents, miss, touch, ref_loop, ref_at, cachesim_ref,
}
use mambo.CacheSim.NextLine.{cachesim_ref_next_line}

abbrev empty_cache : Model
empty_cache = record {
  size = 32;
  line_size = 16;
  max_fetch = 16;
  assoc = 1;
  replacement_policy = Policy.replace_lru;
  sets = 2;
  set_shift = 4;
  set_mask = 1;
  tag_shift = 5;
  max_fetch_shift = 4;
  last_addr = 0;
  last_line = 0;
  references = record { reads = 0; writes = 0 };
  misses = record { reads = 0; writes = 0 };
  writebacks = record { reads = 0; writes = 0 };
  lines = null_line ∷ null_line ∷ [];
}

-- The cache after a read of four bytes at 48.
abbrev one_line_cache : Model
one_line_cache = record empty_cache {
  last_addr = 64;
  last_line = 1;
  references = record { reads = 1; writes = 0 };
  misses = record { reads = 1; writes = 0 };
  lines = null_line ∷ record { tag = 2; timestamp = 1 } ∷ [];
}

one_read :
    cachesim_ref (λ cache. 0) (pos 0) (pos 0) 0 (empty_cache ∷ []) 48 4 false
    ≡ ok (one_line_cache ∷ [])
unfolding cachesim_get_set cachesim_get_tag cachesim_load_line least_way cachesim_evict_line
    update_dirty_bit update_line find_way way_index replace ask_parents miss touch ref_loop ref_at
    cachesim_ref
one_read = refl

cachesim_ref_next_line_example :
    Returns
      (cachesim_ref (λ cache. 0) (pos 0) (pos 0) 0 (one_line_cache ∷ []) 64 8 true)
      λ caches. (last : Model) × (caches ≡ last ∷ []) × (last.misses ≡ one_line_cache.misses)
cachesim_ref_next_line_example =
    cachesim_ref_next_line (λ cache. 0) (pos 0) (pos 0) 0 empty_cache one_line_cache [] [] 3 4 8
      false true refl (omega arith) (omega arith) (omega arith) (omega arith) (omega arith) one_read
