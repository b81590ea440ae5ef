-- ===== src/Sync/Peterson/Starvation.antt =====
-- A thread that waits while the owner of the other slot makes its accesses.
pub mod Rank
pub mod Entry
use paracore.Base.{ℕ, ◌+◌, List, [], ◌∷◌, ◌==◌, if◌then◌else◌}
use paracore.Sync.Peterson.{Caller, Pc}

-- How often the thread is due in the schedule.
abbrev pub turns_of : ℕ → List ℕ → ℕ
turns_of t [] = 0
turns_of t (k ∷ ks) = (if k == t then 1 else 0) + turns_of t ks

-- How many more accesses, at most, a thread at this place makes before it stores itself in
-- `victim_`, if the loop of its `lock()` lets it pass.
abbrev pub rank : Pc → ℕ
rank (Pc.see_flag i) = 14
rank (Pc.see_victim i) = 13
rank Pc.inside = 12
rank (Pc.claim_first Caller.unlock) = 11
rank (Pc.check_first Caller.unlock) = 10
rank (Pc.claim_second Caller.unlock) = 9
rank (Pc.check_second Caller.unlock) = 8
rank (Pc.lower_flag i) = 7
rank Pc.outside = 6
rank (Pc.claim_first Caller.lock) = 5
rank (Pc.check_first Caller.lock) = 4
rank (Pc.claim_second Caller.lock) = 3
rank (Pc.check_second Caller.lock) = 2
rank (Pc.raise_flag i) = 1
rank (Pc.yield_to i) = 0
rank Pc.aborted = 0
