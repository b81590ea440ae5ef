-- ===== src/Canary/Race.antt =====
-- tests/canary_race.cpp: two threads that add to one counter without synchronisation, as
-- counter.cpp does without PARA_SYNCED.
use paracore.Base.{ℕ, ◌≤◌, ◌≡◌, List, Among, arith}
use paracore.Playground.Adders.{races, race_start}
use paracore.Playground.Adders.Sums.{Done}
use paracore.Playground.Adders.Racing.{unsynced_loses, unsynced-le}

-- The rounds of `bump`.
abbrev bumps : ℕ
bumps = 100000

-- The number that `main` prints, where the threads make their accesses in this order.
unfoldable pub shared_counter : List ℕ → ℕ
unfolding races
shared_counter order = (races order (race_start bumps)).unsynced

-- Whatever the order of the accesses, canary_race.cpp prints at most 200000, and there is an order in
-- which both threads come to their end and it prints 100000.
canary_races :
    ((order : List ℕ) → Among 2 order → shared_counter order ≤ 200000)
    × ((order : List ℕ) × Among 2 order
        × Done 2 (races order (race_start bumps)).left
        × (shared_counter order ≡ 100000))
unfolding shared_counter
canary_races =
    (λ order here. unsynced-le 2 bumps order (omega arith) here, unsynced_loses bumps (omega arith))
