-- ===== src/Ds/Queue.antt =====
-- ds/queue.hpp and ds/detail/queue_impl.hpp: four queues. The mutexes and condition variables,
-- which no stub uses, and the cache-line alignment are left out.
use paracore.Base.{ℕ, List, none, Option, Bool, false, replicate}
use paracore.Core.Status.{Status, Result, fail}
use paracore.Ds.Client.{Pointer}
use paracore.Ds.Container.{Container}

pub record TwoLockQueue : Type 0 where
  pub head : Pointer
  pub tail : Pointer
  pub capacity : ℕ

pub record MichaelScottQueue : Type 0 where
  pub head : Pointer
  pub tail : Pointer

-- `SpscRing<T, N>`: the two counters and `N` slots.
pub record SpscRing (A : Type 0) : Type 0 where
  pub head : ℕ
  pub tail : ℕ
  pub slots : List (Option A)

pub record BlockingQueue : Type 0 where
  pub head : Pointer
  pub tail : Pointer
  pub size : ℕ
  pub capacity : ℕ
  pub closed : Bool

abbrev pub new_two_lock : ℕ → TwoLockQueue
new_two_lock capacity = record { head = none; tail = none; capacity = capacity }

abbrev pub new_michael_scott : MichaelScottQueue
new_michael_scott = record { head = none; tail = none }

abbrev pub new_spsc : {A : Type 0} → ℕ → SpscRing A
new_spsc n = record { head = 0; tail = 0; slots = replicate n none }

abbrev pub new_blocking : ℕ → BlockingQueue
new_blocking capacity = record {
  head = none;
  tail = none;
  size = 0;
  capacity = capacity;
  closed = false;
}

module _ {A : Type 0} where
  abbrev pub two_lock_queue : Container A TwoLockQueue
  unfolding fail
  two_lock_queue = record {
    push = λ value s. (Status.not_built, s);
    try_pop = λ s. (fail Status.not_built, s);
    size_approx = λ s. 0;
  }

  abbrev pub michael_scott_queue : Container A MichaelScottQueue
  unfolding fail
  michael_scott_queue = record {
    push = λ value s. (Status.not_built, s);
    try_pop = λ s. (fail Status.not_built, s);
    size_approx = λ s. 0;
  }

  abbrev pub spsc_ring : Container A (SpscRing A)
  unfolding fail
  spsc_ring = record {
    push = λ value s. (Status.not_built, s);
    try_pop = λ s. (fail Status.not_built, s);
    size_approx = λ s. 0;
  }

  -- `try_push`, `try_pop` and `size_approx` of BlockingQueue.
  abbrev pub blocking_queue : Container A BlockingQueue
  unfolding fail
  blocking_queue = record {
    push = λ value s. (Status.not_built, s);
    try_pop = λ s. (fail Status.not_built, s);
    size_approx = λ s. 0;
  }

  -- Its blocking `push` and `pop`, which do not block yet.
  abbrev pub blocking_push : A → BlockingQueue → Status × BlockingQueue
  blocking_push value s = (Status.not_built, s)

  abbrev pub blocking_pop : BlockingQueue → Result A × BlockingQueue
  unfolding fail
  blocking_pop s = (fail Status.not_built, s)

abbrev pub close : BlockingQueue → Status × BlockingQueue
close s = (Status.not_built, s)
