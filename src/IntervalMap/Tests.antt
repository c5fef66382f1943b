-- ===== src/IntervalMap/Tests.antt =====
-- The theorems on the interval map of common.c at inputs that meet their hypotheses.
use mambo.Base.{
  ℕ, ◌<◌, ◌≡◌, refl, true, ◌||◌, [], ◌∷◌, ltb, if◌then◌else◌, tally, pos, minus_one, abort, Returns,
  arith,
}
use mambo.IntervalMap.{
  State, Os, interval_map_delete, interval_map_add, interval_map_search_by_addr,
}
use mambo.IntervalMap.Add.{interval_map_add_lem}
use mambo.IntervalMap.Delete.{interval_map_delete_lem, interval_map_delete_aborts}
use mambo.IntervalMap.Loss.{anonymous, two_entries, interval_map_add_loses}
use mambo.IntervalMap.Round.{Works, within, hits}
use mambo.IntervalMap.Search.{Answers, interval_map_search_by_addr_lem}
use mambo.IntervalMap.Tally.{IsValid, count_of, mult}

abbrev steady : Os
steady = record {
  dup = λ n fd. pos 7;
  lock = λ n. pos 0;
  unlock = λ n. pos 0;
  mutex_init = λ n. pos 0;
}

steady-Works : Works steady
steady-Works = record { lock_works = λ n. refl; unlock_works = λ n. refl; dup_works = λ n k. refl }

abbrev sample : State
sample = two_entries (anonymous 10 20) (anonymous 30 40) (anonymous 0 0 ∷ anonymous 0 0 ∷ []) 4

sample-IsValid : IsValid sample
unfolding count_of tally
sample-IsValid = record { room = omega arith; sized = refl; proper = refl }

interval_map_delete_example : Returns (interval_map_delete steady sample 12 15) λ r.
    (r.0 ≡ pos (count_of (hits 12 15) sample))
    × IsValid r.1
    × ((a : ℕ) → mult a r.1 ≡ (if within 12 15 a then 0 else mult a sample))
unfolding count_of tally
interval_map_delete_example =
    interval_map_delete_lem steady steady-Works sample 12 15 (omega arith) sample-IsValid refl
      (omega arith)

interval_map_delete_aborts_example : interval_map_delete steady sample 35 50 ≡ abort
interval_map_delete_aborts_example =
    interval_map_delete_aborts steady steady-Works sample 35 50 (omega arith) 1 refl (omega arith)
      (omega arith) (omega arith)

interval_map_search_by_addr_example :
    Returns (interval_map_search_by_addr steady sample 33 true) λ r. Answers 33 sample r.0 r.1
interval_map_search_by_addr_example =
    interval_map_search_by_addr_lem steady sample 33 steady-Works sample-IsValid

interval_map_add_example : Returns (interval_map_add steady sample 15 25 minus_one) λ r.
    (r.0 ≡ pos 0)
    × IsValid r.1
    × ((a : ℕ) → ltb 0 (mult a r.1) ≡ (within 15 25 a || ltb 0 (mult a sample)))
unfolding count_of tally
interval_map_add_example =
    interval_map_add_lem steady sample 15 25 minus_one steady-Works sample-IsValid (omega arith)
      (omega arith) (omega arith) refl

-- The second range is widened to 15, and the part from 10 to 14 of the first is lost.
interval_map_add_loses_example :
    Returns
      (interval_map_add steady sample 15 35 minus_one)
      λ r. (r.0 ≡ pos 0) × (r.1.entry_count ≡ 1) × (0 < mult 12 sample) × (mult 12 r.1 ≡ 0)
interval_map_add_loses_example =
    interval_map_add_loses 10 20 30 40 15 35 4 (anonymous 0 0 ∷ anonymous 0 0 ∷ []) steady 12
      steady-Works (omega arith) refl refl (omega arith) (omega arith) (omega arith) (omega arith)
