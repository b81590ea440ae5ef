-- ===== src/Tests/Sync/Schedules.antt =====
-- Schedules of two threads, with the ids 1 and 2, that share a PetersonLock.
use paracore.Base.{
  ℕ, zero, suc, ◌≤◌, ◌<◌, ◌≡◌, ◌%◌, ◌^◌, refl, Option, none, List, [], ◌∷◌, ◌++◌, Among, arith,
}
use paracore.Core.Outcome.{Outcome}
use paracore.Core.Thread.{ThreadIds}
use paracore.Core.Mutex.Trace
use paracore.Core.Mutex.Trace.{owned}
use paracore.Sync.Peterson.{first}
use paracore.Sync.Peterson.System.{System, step, init, Reach, start, later}
use paracore.Sync.Peterson.Waiting.{run}
use paracore.Sync.Peterson.Bypass.{bypasses, KeepsWaiting}
use paracore.Sync.Peterson.Bypass.Once.{bypassed_once}
use paracore.Sync.Peterson.Owned.{events, Owner, schedule-owned}
use paracore.Sync.Peterson.Starvation.Entry.{starvation_free}
use paracore.Sync.Peterson.Returns.{Enters}
use paracore.Sync.Peterson.Returns.Entered.{lock_returns}
use paracore.Sync.Peterson.Guarded
use paracore.Sync.Peterson.Guarded.{Guarded}
use paracore.Sync.Peterson.Guarded.Counts.{counter-made}
use paracore.Tests.Core.Platform.{linux}

abbrev ids : ℕ → ℕ
ids t = suc t

two : ThreadIds 2 ids
two = record { named = λ t lt. omega arith; distinct = λ t u ht hu e. omega arith }

run-Reach : (ts : List ℕ) {s : System} → Among 2 ts → Reach 2 ids s → Reach 2 ids (run ids ts s)
unfolding run
run-Reach [] all r = r
run-Reach (t ∷ ts) all r = run-Reach ts all.1 (later t all.0 r)

-- Thread 0 waits, and thread 1 is about to look at its flag and at the victim.
abbrev both_there : List ℕ
both_there = 0 ∷ 0 ∷ 0 ∷ 0 ∷ 1 ∷ 1 ∷ 1 ∷ 1 ∷ 1 ∷ 1 ∷ []

both_there-Among : Among 2 both_there
both_there-Among = (
  omega arith,
  (
    omega arith,
    (
      omega arith,
      (
        omega arith,
        (
          omega arith,
          (omega arith, (omega arith, (omega arith, (omega arith, (omega arith, tt))))),
        ),
      ),
    ),
  ),
)

bypassed_once_example : bypasses ids 0 (1 ∷ 1 ∷ []) (run ids both_there init) ≤ 1
unfolding run step KeepsWaiting
bypassed_once_example =
    bypassed_once (1 ∷ 1 ∷ []) (run ids both_there init) two
      (run-Reach both_there both_there-Among start) 0 (omega arith) first
      (omega arith, (omega arith, tt)) (refl, (refl, refl))

-- Thread 0 locks and unlocks.
abbrev one_call : List ℕ
one_call = 0 ∷ 0 ∷ 0 ∷ 0 ∷ 0 ∷ 0 ∷ 0 ∷ 0 ∷ 0 ∷ []

schedule-owned_example :
    (o : Option ℕ) × (Trace.run (owned linux) (events ids one_call init) none
      ≡ Outcome.returns ([], o))
    × Owner 2 (run ids one_call init).pc o
schedule-owned_example = schedule-owned linux one_call two (
  omega arith,
  (
    omega arith,
    (
      omega arith,
      (omega arith, (omega arith, (omega arith, (omega arith, (omega arith, (omega arith, tt)))))),
    ),
  ),
)

abbrev guarded_turns : ℕ → ℕ → Guarded → Guarded
guarded_turns zero t s = s
guarded_turns (suc k) t s = guarded_turns k t (Guarded.step ids t s)

guarded_turns-Reach :
    (k t : ℕ) {s : Guarded}
    → t < 2
    → Guarded.Reach 2 ids s
    → Guarded.Reach 2 ids (guarded_turns k t s)
guarded_turns-Reach zero t lt r = r
guarded_turns-Reach (suc k) t lt r = guarded_turns-Reach k t lt (Guarded.Reach.later t lt r)

-- Thread 0 has made an increment, and thread 1 is on its way.
counter-made_example :
    (guarded_turns 3 1 (guarded_turns 7 0 Guarded.init)).counter
    ≡ (guarded_turns 3 1 (guarded_turns 7 0 Guarded.init)).made % 2 ^ 64
counter-made_example = counter-made {s = guarded_turns 3 1 (guarded_turns 7 0 Guarded.init)} two (
    guarded_turns-Reach 3 1 (omega arith)
      (guarded_turns-Reach 7 0 (omega arith) Guarded.Reach.start))

abbrev often : List ℕ
often = 1 ∷ 1 ∷ 1 ∷ 1 ∷ 1 ∷ 1 ∷ 1 ∷ 1 ∷ 1 ∷ 1 ∷ 1 ∷ 1 ∷ 1 ∷ 1 ∷ 1 ∷ []

often-Among : Among 2 often
often-Among = ground arith

-- Thread 1, the victim, looks again and again, and thread 0 then enters.
starvation_free_example :
    ¬ KeepsWaiting ids 0 first (0 ∷ 0 ∷ []) (run ids often (run ids both_there init))
unfolding run step KeepsWaiting
starvation_free_example =
    starvation_free (run ids both_there init) two (run-Reach both_there both_there-Among start) 0 1
      (omega arith) (omega arith) (omega arith) first refl often (0 ∷ 0 ∷ []) often-Among
      (omega arith, (omega arith, tt)) (omega arith) (omega arith) refl
      (
        refl,
        (
          refl,
          (
            refl,
            (
              refl,
              (
                refl,
                (
                  refl,
                  (refl, (refl, (refl, (refl, (refl, (refl, (refl, (refl, (refl, refl))))))))),
                ),
              ),
            ),
          ),
        ),
      )

-- The threads in turn, seven times.
abbrev in_turn : List ℕ
in_turn = 0 ∷ 1 ∷ 0 ∷ 1 ∷ 0 ∷ 1 ∷ 0 ∷ 1 ∷ 0 ∷ 1 ∷ 0 ∷ 1 ∷ 0 ∷ 1 ∷ []

in_turn-Among : Among 2 in_turn
in_turn-Among = ground arith

-- From a new lock, thread 0 enters.
lock_returns_example : Enters ids 0 (in_turn ++ (often ++ 0 ∷ 0 ∷ [])) init
lock_returns_example =
    lock_returns init two start 0 1 (omega arith) (omega arith) (omega arith) in_turn often
      (0 ∷ 0 ∷ []) in_turn-Among often-Among (omega arith, (omega arith, tt)) (omega arith)
      (omega arith) (omega arith) (omega arith)
