-- ===== src/Runner/Watch.antt =====
-- `run_forked` of tests/para_test.cpp: the watchdog.
use paracore.Base.{
  ℕ, ◌+◌, ◌*◌, ◌^◌, ◌≤◌, ◌<◌, ◌≡◌, ◌↔◌, ◌⊎◌, refl, true, List, [], ◌∷◌, ◌++◌, arith,
}
use paracore.Runner.{Outcome, Ended, Poll, Watched, outcome, deadline, watch, run_forked}

-- A poll after which the loop goes on.
abbrev pub GoesOn : ℕ → Poll → Type 0
GoesOn until Poll.interrupted = Unit
GoesOn until (Poll.running now) = now < until
GoesOn until _ = ⊥

-- The loop comes to a poll with this property.
abbrev pub Reaches : (Poll → Type 0) → ℕ → List Poll → Type 0
Reaches P until [] = ⊥
Reaches P until (p ∷ polls) = P p ⊎ (GoesOn until p × Reaches P until polls)

abbrev pub Late : ℕ → Poll → Type 0
Late until (Poll.running now) = until ≤ now
Late until _ = ⊥

abbrev pub ExitsWith0 : Poll → Type 0
ExitsWith0 (Poll.ended (Ended.exited code)) = code ≡ 0
ExitsWith0 _ = ⊥

-- After each poll the loop goes on.
abbrev pub AllGoOn : ℕ → List Poll → Type 0
AllGoOn until [] = Unit
AllGoOn until (p ∷ polls) = GoesOn until p × AllGoOn until polls

watch-timeout :
    (until : ℕ) (polls : List Poll)
    → (watch until polls ≡ Watched.result Outcome.timeout) ↔ Reaches (Late until) until polls
unfolding watch
watch-timeout until [] = ((λ h. cc), λ h. absurd h)
watch-timeout until (Poll.ended (Ended.exited code) ∷ polls) = ground arith
watch-timeout until (Poll.ended (Ended.signalled n) ∷ polls) = ground arith
watch-timeout until (Poll.failed ∷ polls) = ground arith
watch-timeout until (Poll.interrupted ∷ polls) =
    let (to, from) = watch-timeout until polls in
    (λ h. ground (arith, to), λ h. ground (arith, from))
watch-timeout until (Poll.running now ∷ polls) =
    let (to, from) = watch-timeout until polls in
    (λ h. ground (arith, to), λ h. ground (arith, from))

watch-pass :
    (until : ℕ) (polls : List Poll)
    → (watch until polls ≡ Watched.result Outcome.pass) ↔ Reaches ExitsWith0 until polls
unfolding watch
watch-pass until [] = ((λ h. cc), λ h. absurd h)
watch-pass until (Poll.ended (Ended.exited code) ∷ polls) = (λ h. ground arith, λ h. ground arith)
watch-pass until (Poll.ended (Ended.signalled n) ∷ polls) = ground arith
watch-pass until (Poll.failed ∷ polls) = ground arith
watch-pass until (Poll.interrupted ∷ polls) =
    let (to, from) = watch-pass until polls in (λ h. ground (arith, to), λ h. ground (arith, from))
watch-pass until (Poll.running now ∷ polls) =
    let (to, from) = watch-pass until polls in (λ h. ground (arith, to), λ h. ground (arith, from))

watch-waits :
    (until : ℕ) (polls : List Poll) → (watch until polls ≡ Watched.waits) ↔ AllGoOn until polls
unfolding watch
watch-waits until [] = ((λ h. tt), λ h. refl)
watch-waits until (Poll.ended e ∷ polls) = ((λ h. cc), λ h. absurd h.0)
watch-waits until (Poll.failed ∷ polls) = ((λ h. cc), λ h. absurd h.0)
watch-waits until (Poll.interrupted ∷ polls) =
    let (to, from) = watch-waits until polls in (λ h. ground (arith, to), λ h. ground (arith, from))
watch-waits until (Poll.running now ∷ polls) =
    let (to, from) = watch-waits until polls in (λ h. ground (arith, to), λ h. ground (arith, from))

deadline_lem :
    (t0 timeout_ms : ℕ)
    → t0 + timeout_ms * 1000000 < 2 ^ 64
    → deadline t0 timeout_ms ≡ t0 + timeout_ms * 1000000
unfolding deadline
deadline_lem t0 timeout_ms h = omega arith

watch-child :
    (until : ℕ) (before : List Poll) (e : Ended)
    → AllGoOn until before
    → watch until (before ++ (Poll.ended e ∷ [])) ≡ Watched.result (outcome e)
unfolding watch
watch-child until [] e h = refl
watch-child until (Poll.interrupted ∷ polls) e h = watch-child until polls e h.1
watch-child until (Poll.running now ∷ polls) e h = ground (arith, watch-child until polls e)
watch-child until (Poll.ended x ∷ polls) e h = absurd h.0
watch-child until (Poll.failed ∷ polls) e h = absurd h.0

-- A child that ends in time is reported by how it ended.
pub run_forked-child :
    (t0 timeout_ms : ℕ) (before : List Poll) (e : Ended)
    → t0 + timeout_ms * 1000000 < 2 ^ 64
    → AllGoOn (t0 + timeout_ms * 1000000) before
    → run_forked true t0 timeout_ms (before ++ (Poll.ended e ∷ [])) ≡ Watched.result (outcome e)
unfolding run_forked
run_forked-child t0 timeout_ms before e early h =
    rw (deadline_lem t0 timeout_ms early) (watch-child (t0 + timeout_ms * 1000000) before e h)

-- If the deadline fits 64 bits, `run_forked` reports a timeout exactly when it polls at or after
-- the start plus the timeout, and a pass exactly when a poll finds that the child has exited with
-- 0, in each case after polls that were interrupted or came before the deadline; and it polls on
-- exactly when every poll was of that kind.
pub run_forked_iff :
    (t0 timeout_ms : ℕ) (polls : List Poll)
    → t0 + timeout_ms * 1000000 < 2 ^ 64
    → ((run_forked true t0 timeout_ms polls ≡ Watched.result Outcome.timeout)
        ↔ Reaches (Late (t0 + timeout_ms * 1000000)) (t0 + timeout_ms * 1000000) polls)
      × ((run_forked true t0 timeout_ms polls ≡ Watched.result Outcome.pass)
          ↔ Reaches ExitsWith0 (t0 + timeout_ms * 1000000) polls)
      × ((run_forked true t0 timeout_ms polls ≡ Watched.waits)
          ↔ AllGoOn (t0 + timeout_ms * 1000000) polls)
unfolding run_forked
run_forked_iff t0 timeout_ms polls early =
    let until : ℕ = t0 + timeout_ms * 1000000 in
    rw (deadline_lem t0 timeout_ms early)
      (watch-timeout until polls, watch-pass until polls, watch-waits until polls)
