-- ===== src/Ds/Stack.antt =====
-- ds/stack.hpp and ds/detail/stack_impl.hpp: three stacks. The `Mutex` of LockedStack, which no
-- stub locks, and the cache-line alignment are left out.
use paracore.Base.{ℕ, none}
use paracore.Core.Status.{Status, fail}
use paracore.Ds.Client.{Pointer}
use paracore.Ds.Container.{Container}

pub record LockedStack : Type 0 where
  pub top : Pointer
  pub size : ℕ

pub record TreiberStack : Type 0 where
  pub top : Pointer
  pub size : ℕ

pub record EliminationStack : Type 0 where
  pub backing : TreiberStack
  pub slots : ℕ
  pub backoff_spins : ℕ

-- The constructors; `EliminationStack(slots, backoff_spins)` defaults to 16 and 1024.
abbrev pub new_locked : LockedStack
new_locked = record { top = none; size = 0 }

abbrev pub new_treiber : TreiberStack
new_treiber = record { top = none; size = 0 }

abbrev pub new_elimination : ℕ → ℕ → EliminationStack
new_elimination slots backoff_spins = record {
  backing = new_treiber;
  slots = slots;
  backoff_spins = backoff_spins;
}

module _ {A : Type 0} where
  abbrev pub locked_stack : Container A LockedStack
  unfolding fail
  locked_stack = record {
    push = λ value s. (Status.not_built, s);
    try_pop = λ s. (fail Status.not_built, s);
    size_approx = λ s. 0;
  }

  abbrev pub treiber_stack : Container A TreiberStack
  unfolding fail
  treiber_stack = record {
    push = λ value s. (Status.not_built, s);
    try_pop = λ s. (fail Status.not_built, s);
    size_approx = λ s. 0;
  }

  abbrev pub elimination_stack : Container A EliminationStack
  unfolding fail
  elimination_stack = record {
    push = λ value s. (Status.not_built, s);
    try_pop = λ s. (fail Status.not_built, s);
    size_approx = λ s. 0;
  }
