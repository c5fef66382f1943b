-- ===== src/LinkedList/Tests.antt =====
-- A pool of three entries, of which two are used.
use mambo.Base.{ℕ, ◌≡◌, none, replicate, arith, Returns}
use mambo.LinkedList.{Pool, null_entry, linked_list_init, linked_list_alloc}
use mambo.LinkedList.Alloc.{alloc_times, from, linked_list_alloc_lem}

abbrev fresh_pool : Pool
fresh_pool = record { free_list = none; size = 0; pool = replicate 3 null_entry }

linked_list_alloc_example :
    Returns
      (linked_list_init fresh_pool 2)
      λ s. (k : ℕ) → (linked_list_alloc (alloc_times k s)).0 ≡ from 2 k
linked_list_alloc_example = linked_list_alloc_lem fresh_pool 2 (omega arith) (omega arith)
