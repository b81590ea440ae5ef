-- ===== src/Playground/Hello/Lines.antt =====
-- What hello.cpp prints.
use Prim.Native.String.{◌++◌}
use paracore.Base.{ℕ, String, ◌≡◌, refl, Option, none, some, [], ◌∷◌, ltb, if◌then◌else◌}
use paracore.Core.Status.{Errno, fail}
use paracore.Core.Outcome.{Outcome}
use paracore.Core.Mutex
use paracore.Core.Mutex.{Pthread, ErrorChecking}
use paracore.Playground.Hello.{main}

lock_returns :
    (os : Errno) (p : Pthread) (t : ℕ) (m m' : p.Mutex)
    → p.mutex_lock t m ≡ some (0, m')
    → Mutex.lock os p t m ≡ Outcome.returns m'
unfolding Mutex.lock
lock_returns os p t m m' e = rw (Mutex.lock, e) refl

unlock_returns :
    (os : Errno) (p : Pthread) (t : ℕ) (m m' : p.Mutex)
    → p.mutex_unlock t m ≡ (0, m')
    → Mutex.unlock os p t m ≡ Outcome.returns m'
unfolding Mutex.unlock
unlock_returns os p t m m' e = rw (Mutex.unlock, e) refl

-- With a mutex that checks its errors as POSIX documents and that is made without an error,
-- hello.cpp prints its eight lines and ends: with 1 core if the standard library knows none, the
-- Mutex as "ok", and the thread pool and the queue with the text of `NotBuilt`.
pub hello_prints :
    {os : Errno} {p : Pthread} {holder : p.Mutex → Option ℕ} (posix : ErrorChecking os p holder)
    → (shown : ℕ → String) (hardware : ℕ) (m : p.Mutex) (t : ℕ) → holder m ≡ none
    → main shown hardware os p 0 m t ≡ (
      "paracore 0.2.0"
          ∷ ("hardware threads: " ++ shown (if ltb 0 hardware then hardware else 1))
          ∷ ("cache line (assumed): " ++ (shown 64 ++ " bytes"))
          ∷ "core/mutex.hpp ... ok"
          ∷ "exec/pool.hpp ... not built yet (see the module in the header)"
          ∷ "ds/queue.hpp ... not built yet (see the module in the header)"
          ∷ ""
          ∷ "run `make progress` to see the whole build plan."
          ∷ [],
      Outcome.returns tt,
    )
unfolding main fail
hello_prints {os} {p} posix shown hardware m t free =
    let (m', locked, mine) = posix.lock_free t m free in
    let (m'', unlocked, again) = posix.unlock_own t m' mine in
    rw (main, lock_returns os p t m m' locked, unlock_returns os p t m' m'' unlocked) refl
