-- ===== src/DataRace/Events/Sequences.antt =====
-- Sequences of events of plugins/datarace/detectors.
use mambo.Base.{ℕ, suc, ◌+◌, ◌^◌, ◌<◌, refl, sym, List, [], ◌∷◌, length, arith, Returns}
use mambo.DataRace.{System, Event, handle, handle_all}
use mambo.DataRace.Events.{IsValid, Step, ClocksBelow, Enabled, AllEnabled}
use mambo.DataRace.Events.Fork.{fork-IsValid, thread_join-eq-fork}
use mambo.DataRace.Events.Locks.{acquire-IsValid, release-IsValid}

handle-IsValid :
    (n m : ℕ) (e : Event) (s : System)
    → IsValid n m s
    → Enabled n m e
    → Returns (handle e s) λ s'. IsValid n m s' × Step n s s'
unfolding handle
handle-IsValid n m (Event.fork p c) s h (hp, hc, apart) = fork-IsValid n m s p c h hp hc apart
handle-IsValid n m (Event.join p c) s h (hp, hc, apart) =
    rw (thread_join-eq-fork s p c) (fork-IsValid n m s c p h hc hp (λ e. apart (sym e)))
handle-IsValid n m (Event.acquire l t) s h (hl, ht) = acquire-IsValid n m s l t h hl ht
handle-IsValid n m (Event.release l t) s h (hl, ht) = release-IsValid n m s l t h hl ht

-- From a valid state of n threads and m locks whose threads' own clocks are at most c, every sequence
-- of events on them, whose forks and joins are of two different threads, and which has at most
-- 2 ^ 31 - 1 - c events, is handled without a failed `assert`. It leaves a valid state: at most eight
-- threads, clocks of eight entries, and each thread strictly ahead of what the other threads and the
-- locks know of it. The threads' own clocks, which are the greatest, still fit in an `int` then.
pub handle_all_lem :
    (n m c : ℕ) (events : List Event) (s : System)
    → IsValid n m s
    → ClocksBelow (suc c) n s
    → c + length events < 2 ^ 31
    → AllEnabled n m events
    → Returns (handle_all events s) λ s'. IsValid n m s' × ClocksBelow (2 ^ 31) n s'
unfolding handle_all
handle_all_lem n m c [] s h below small all =
    (s, refl, (h, λ j l. let b = below j l in omega (arith, b, small)))
handle_all_lem n m c (e ∷ events) s h below small (first, rest) =
    let (s', returned, (h', step)) = handle-IsValid n m e s h first in
    let below' : ClocksBelow (suc (suc c)) n s' =
      λ j l. let b = below j l in let d = step j l in omega (arith, b, d) in
    rw returned (handle_all_lem n m (suc c) events s' h' below' (omega (arith, small)) rest)
