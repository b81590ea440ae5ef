-- ===== src/Tests/Sync/Peterson.antt =====
-- Three threads, with the ids 1, 2 and 3, that share a PetersonLock.
use paracore.Base.{ℕ, zero, suc, ◌<◌, ◌≡◌, ◌≢◌, ◌↔◌, refl, arith}
use paracore.Core.Thread.{ThreadIds}
use paracore.Sync.Memory.{Order}
use paracore.Sync.Peterson.{first, second, owner, Pc, everywhere}
use paracore.Sync.Peterson.System.{System, step, init, Reach, start, later}
use paracore.Sync.Peterson.Safety.{mutual_exclusion}
use paracore.Sync.Peterson.Aborts.{abort_needs_three}
use paracore.Sync.Peterson.Buffered
use paracore.Sync.Peterson.Buffered.{Buffered}
use paracore.Sync.Peterson.Buffered.Lag.{strong_victim}
use paracore.Sync.Peterson.Buffered.Needed.{meet_iff}
use paracore.Sync.Peterson.Buffered.Reorder.{release_breaks_exclusion}

abbrev ids : ℕ → ℕ
ids t = suc t

three : ThreadIds 3 ids
three = record { named = λ t lt. omega arith; distinct = λ t u ht hu e. omega arith }

-- `k` accesses of thread `t` in a row.
abbrev turns : ℕ → ℕ → System → System
turns zero t s = s
turns (suc k) t s = turns k t (step ids t s)

turns-Reach : (k t : ℕ) {s : System} → t < 3 → Reach 3 ids s → Reach 3 ids (turns k t s)
turns-Reach zero t lt r = r
turns-Reach (suc k) t lt r = turns-Reach k t lt (later t lt r)

-- Thread 0 is inside, and thread 1 waits for it.
abbrev one_inside : System
one_inside = turns 6 1 (turns 5 0 init)

one_inside-Reach : Reach 3 ids one_inside
one_inside-Reach = turns-Reach 6 1 (omega arith) (turns-Reach 5 0 (omega arith) start)

mutual_exclusion_example : ◌≡◌ {A = ℕ} 0 0
unfolding step
mutual_exclusion_example =
    mutual_exclusion three one_inside-Reach 0 0 (omega arith) (omega arith) tt tt

-- Threads 0 and 1 have taken the slots, and thread 2 has aborted.
abbrev third_aborted : System
third_aborted = turns 5 2 (turns 4 1 (turns 2 0 init))

abort_needs_three_example :
    (t : ℕ) × (u : ℕ) × (v : ℕ) × (t < 3)
    × (u < 3)
    × (v < 3)
    × (t ≢ u)
    × (t ≢ v)
    × (u ≢ v)
    × (third_aborted.pc t ≡ Pc.aborted)
    × (third_aborted.mem (owner first) ≡ ids u)
    × (third_aborted.mem (owner second) ≡ ids v)
unfolding step
abort_needs_three_example =
    abort_needs_three three
      (turns-Reach 5 2 (omega arith)
        (turns-Reach 4 1 (omega arith) (turns-Reach 2 0 (omega arith) start)))
      refl

release_breaks_exclusion_example :
    (s : Buffered) × Buffered.Reach (everywhere Order.release) 3 ids s
    × (s.pc 0 ≡ Pc.inside)
    × (s.pc 1 ≡ Pc.inside)
release_breaks_exclusion_example =
    release_breaks_exclusion three 0 1 (omega arith) (omega arith) (omega arith)

meet_iff_example :
    ((s : Buffered) × Buffered.Reach strong_victim 3 ids s
      × (s.pc 0 ≡ Pc.inside)
      × (s.pc 1 ≡ Pc.inside))
    ↔ (Order.seq_cst ≢ Order.seq_cst)
meet_iff_example = meet_iff three 0 1 (omega arith) (omega arith) (omega arith) strong_victim
