-- ===== src/FunctionWatch/Tests.antt =====
-- The watched functions of elf/symbol_parser.c: two functions, at three addresses.
use mambo.Base.{
  ℕ, ◌≤◌, ◌<◌, ◌≡◌, ◌≢◌, refl, true, false, ◌||◌, ◌==◌, leb, ◌∷◌, replicate, arith, pos, Returns,
}
use mambo.FunctionWatch.{
  Watched, WatchedFuncp, no_func, no_funcp, funcp_at, function_watch_add, function_watch_search,
  search_rounds, max_watched_funcs, function_watch_addp_invalidate,
}
use mambo.FunctionWatch.Locks.{Stuck, function_watch_add_lem}
use mambo.FunctionWatch.Invalidate.{
  Fits, held, within, function_watch_addp_invalidate_lem, function_watch_addp_invalidate-misses,
}

abbrev two_funcs : Watched
two_funcs = record {
  funcs =
      record { name = 100; plugin_id = 0; pre_callback = 1; post_callback = 0 }
      ∷ record { name = 200; plugin_id = 1; pre_callback = 2; post_callback = 3 }
      ∷ replicate 38 no_func;
  func_count = 2;
  funcs_lock = false;
  funcps =
      record { func = 0; addr = 0x8000 }
      ∷ record { func = 1; addr = 0x4000 }
      ∷ record { func = 1; addr = 0x4100 }
      ∷ replicate 77 no_funcp;
  funcp_count = 3;
  funcps_lock = false;
}

function_watch_add_lem_example :
    ((function_watch_search ◌==◌ two_funcs 200 || leb max_watched_funcs 2) ≡ true
      → Returns (function_watch_add ◌==◌ two_funcs 200 2 4 0) λ r. (r.0 ≢ pos 0) × Stuck ◌==◌ r.1)
    × ((function_watch_search ◌==◌ two_funcs 200 || leb max_watched_funcs 2) ≡ false
        → 2 < 40
        → Returns (function_watch_add ◌==◌ two_funcs 200 2 4 0) λ r.
          (r.0 ≡ pos 0)
          × (r.1.funcs_lock ≡ false)
          × ((other : ℕ)
              → function_watch_search ◌==◌ r.1 other
                ≡ (function_watch_search ◌==◌ two_funcs other || (other == 200))))
function_watch_add_lem_example = function_watch_add_lem ◌==◌ two_funcs 200 2 4 0 refl

add_test : function_watch_search ◌==◌ two_funcs 200 ≡ true
unfolding function_watch_search search_rounds
add_test = refl

function_watch_addp_invalidate_lem_example :
    Returns (function_watch_addp_invalidate two_funcs 0x4000 0x1000) λ r.
      Fits r.1
      × (r.1.funcps_lock ≡ false)
      × ((w : WatchedFuncp → ℕ) → held w r.1 ≤ held w two_funcs)
      × ((w : WatchedFuncp → ℕ)
          → ((entry : WatchedFuncp) → within 0x4000 0x1000 entry ≡ true → w entry ≡ 0)
          → held w r.1 ≡ held w two_funcs)
function_watch_addp_invalidate_lem_example =
    function_watch_addp_invalidate_lem two_funcs 0x4000 0x1000 refl (omega arith)

first_outside : (j : ℕ) → j < 1 → within 0x4000 0x1000 (funcp_at two_funcs j) ≡ false
first_outside j h = let e : j ≡ 0 = omega arith in rw e refl

function_watch_addp_invalidate-misses_example :
    Returns (function_watch_addp_invalidate two_funcs 0x4000 0x1000) λ r.
      (r.0 ≡ pos 0)
      × (r.1.funcp_count ≡ 2)
      × (funcp_at r.1 1 ≡ funcp_at two_funcs 2)
      × (within 0x4000 0x1000 (funcp_at r.1 1) ≡ true)
function_watch_addp_invalidate-misses_example =
    function_watch_addp_invalidate-misses two_funcs 0x4000 0x1000 1 refl (omega arith) refl
      first_outside refl refl
