-- ===== src/Core/Mutex/CondVar.antt =====
-- `class CondVar` of core/mutex.hpp and src/core/mutex.cpp: waiting, with and without a deadline.
-- The pthread calls, the clock and the predicate are the environment's: what each of them answers,
-- round by round, is an argument. Times are in nanoseconds.
pub mod Deadline
pub mod Rounds
use paracore.Base.{
  ℕ, ◌+◌, ◌-◌, ◌*◌, ◌/◌, ◌%◌, Bool, true, Option, none, some, List, [], ◌∷◌, ◌==◌, leb,
  if◌then◌else◌,
}
use paracore.Base.Int.{ℤ, pos, negsuc}
use paracore.Core.Status.{Status, Errno, OsError, from_errno}
use paracore.Core.Outcome.{Outcome}
use paracore.Core.Mutex.{mutex_fatal}

-- `timespec`
pub record Timespec : Type 0 where
  pub tv_sec : ℕ
  pub tv_nsec : ℕ

-- `CondVar::CondVar()`, where `pthread_cond_init` returns `rc`.
unfoldable pub construct_cond : Errno → ℕ → Outcome (Unit {0})
unfolding mutex_fatal
construct_cond os rc = if rc == 0 then Outcome.returns tt else mutex_fatal os "CondVar" rc

-- `notify_one` and `notify_all`, which drop the code of the platform's call.
module _ {Cond : Type 0} where
  abbrev pub notify_one : (cond_signal : Cond → ℕ × Cond) → Cond → Cond
  notify_one cond_signal c = (cond_signal c).1

  abbrev pub notify_all : (cond_broadcast : Cond → ℕ × Cond) → Cond → Cond
  notify_all cond_broadcast c = (cond_broadcast c).1

-- The deadline that `wait_for(lk, timeout)` computes from the clock's reading.
unfoldable pub deadline : Timespec → ℤ → Timespec
deadline ts timeout =
    let ms : ℕ = elim timeout [ pos n ↦ n | negsuc _ ↦ 0 ] in
    let sec = ts.tv_sec + ms / 1000 in
    let nsec = ts.tv_nsec + ms % 1000 * 1000000 in
    if leb 1000000000 nsec
    then record { tv_sec = sec + 1; tv_nsec = nsec - 1000000000 }
    else record { tv_sec = sec; tv_nsec = nsec }

-- What `wait_for(lk, timeout)` answers when `pthread_cond_timedwait` returns `rc`.
unfoldable pub wait_for_status : Errno → ℕ → OsError → Status × OsError
unfolding from_errno
wait_for_status os rc s =
    if rc == os.etimedout
    then (Status.timed_out, s)
    else if rc == 0
    then (Status.ok, s)
    else from_errno os rc s

-- `CondVar::wait(lk)`, when `pthread_cond_wait` returns `rc`.
unfoldable pub wait_once : Errno → ℕ → Outcome (Unit {0})
unfolding mutex_fatal
wait_once os rc = if rc == 0 then Outcome.returns tt else mutex_fatal os "CondVar::wait" rc

-- `CondVar::wait(lk, stop_waiting)`: in each round the predicate's answer, and the code that
-- `pthread_cond_wait` returns if it is called. The call blocks while rounds are left to come.
unfoldable pub wait : Errno → List (Bool × ℕ) → Outcome (Unit {0})
unfolding mutex_fatal wait_once
wait os [] = Outcome.blocks
wait os ((stop, rc) ∷ rounds) =
    let rest = wait os rounds in
    if stop then Outcome.returns tt else elim (wait_once os rc) [
      | Outcome.returns _ ↦ rest
      | Outcome.aborts m ↦ Outcome.aborts m
      | Outcome.blocks ↦ Outcome.blocks
    ]

-- One round of `wait_for(lk, timeout, stop_waiting)`: the predicate, the clock, and the predicate
-- once more if the deadline has passed.
pub record Round : Type 0 where
  pub stop : Bool
  pub now : ℕ
  pub at_deadline : Bool

-- `duration_cast<milliseconds>(deadline - now)`
unfoldable pub left : ℕ → ℕ → ℕ
left until now = (until - now) / 1000000

-- `wait_for(lk, timeout, stop_waiting)` with the deadline `until`, and the timeouts, in
-- milliseconds, of the waits that it made. `none` while rounds are left to come.
unfoldable pub wait_for : ℕ → List Round → Option Bool × List ℕ
unfolding left
wait_for until [] = (none, [])
wait_for until (r ∷ rounds) =
    let (answer, waits) = wait_for until rounds in
    if r.stop
    then (some true, [])
    else if leb until r.now
    then (some r.at_deadline, [])
    else (answer, left until r.now ∷ waits)
