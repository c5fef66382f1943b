-- ===== src/MamboHt/Tests.antt =====
-- The hash table of api/hash_table.c at eight cells, one of them used.
use mambo.Base.{◌≡◌, refl, true, [], ◌∷◌, arith, some, pos, ok, Returns}
use mambo.MamboHt.{Ht, no_entry, mambo_ht_add_nolock, mambo_ht_get_nolock}
use mambo.MamboHt.Probe.{Shaped}
use mambo.MamboHt.Add.{mambo_ht_add_nolock_lem}

-- The keys 15 and 23 have the same home, the last cell.
abbrev one_used : Ht
one_used = record {
  size = 8;
  entry_count = 1;
  index_shift = 0;
  allow_resize = true;
  fill_factor = 90;
  resize_threshold = 7;
  entries =
      no_entry
      ∷ no_entry
      ∷ no_entry
      ∷ no_entry
      ∷ no_entry
      ∷ no_entry
      ∷ no_entry
      ∷ record { key = 15; value = 100 }
      ∷ [];
}

mambo_ht_add_nolock_example :
    Returns
      (mambo_ht_add_nolock 2 (λ n. true) one_used 23 200)
      λ r. (r.0 ≡ pos 0) × Shaped 3 r.1 × (mambo_ht_get_nolock r.1 23 ≡ ok (pos 0, some 200))
mambo_ht_add_nolock_example =
    mambo_ht_add_nolock_lem 3 1 (λ n. true) one_used 23 200 0 (refl, refl) (omega arith)
      (omega arith) (omega arith) refl
