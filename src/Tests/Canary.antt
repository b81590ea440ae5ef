-- ===== src/Tests/Canary.antt =====
-- The canary of the latent deadlock, with the errno numbers of Linux.
use paracore.Base.{◌+◌, ◌*◌, ◌≤◌, refl}
use paracore.Core.Outcome.{Aborts}
use paracore.Canary.{Ab, Ba, Canary, step_ab, step_ba, Reach, begins, steps_ba, init}
use paracore.Canary.Gate.{GoesOn, gate_prevents}
use paracore.Tests.Core.Platform.{linux}

-- `lock_ba` sleeps, and `lock_ab` has not begun.
abbrev sleeping : Canary
sleeping = record init { ba = Ba.asleep }

sleeping-Reach : Reach linux init 2 0 sleeping
unfolding step_ba
sleeping-Reach = steps_ba (steps_ba begins refl) refl

gate_prevents_example :
    GoesOn linux sleeping
    × (¬ Aborts (step_ab linux Ab.lock_a sleeping))
    × (¬ Aborts (step_ba linux Ba.asleep sleeping))
    × (◌≤◌ 2 (18 + 2 * 0))
gate_prevents_example = gate_prevents linux sleeping-Reach
