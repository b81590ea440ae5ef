-- ===== src/Ds/SkipList.antt =====
-- ds/skiplist.hpp and ds/detail/skiplist_impl.hpp: two skip lists and a priority queue. The
-- comparator and the generator of levels, which no stub calls, are left out.
use paracore.Base.{ℕ, false}
use paracore.Core.Status.{Status, Result, fail}
use paracore.Core.Outcome.{Outcome}
use paracore.Core.Modules.{Module, not_built}
use paracore.Ds.Keyed.{SetOps}

-- Both lists have no members but the comparator and the generator.
abbrev pub LazySkipList : Type 0
LazySkipList = Unit

abbrev pub LockFreeSkipList : Type 0
LockFreeSkipList = Unit

pub record PriorityQueue : Type 0 where
  pub backing : LockFreeSkipList

abbrev pub new_priority_queue : PriorityQueue
new_priority_queue = record { backing = tt }

-- `RandomLevel::operator()`
abbrev pub random_level : Outcome ℕ
random_level = not_built Module.skip_lists "RandomLevel::operator()"

module _ {K V : Type 0} where
  abbrev pub lazy_skip_list : SetOps (K × V) K LazySkipList
  lazy_skip_list = record {
    add = λ e s. (Status.not_built, s);
    remove = λ key s. (Status.not_built, s);
    contains = λ key s. false;
    size_approx = λ s. 0;
  }

  abbrev pub lock_free_skip_list : SetOps (K × V) K LockFreeSkipList
  lock_free_skip_list = record {
    add = λ e s. (Status.not_built, s);
    remove = λ key s. (Status.not_built, s);
    contains = λ key s. false;
    size_approx = λ s. 0;
  }

-- It takes a priority with a value, and gives back a value.
pub record PriorityOps (P V S : Type 0) : Type 0 where
  pub push : P → V → S → Status × S
  pub try_pop_min : S → Result V × S
  pub size_approx : S → ℕ

module _ {P V : Type 0} where
  abbrev pub priority_queue : PriorityOps P V PriorityQueue
  unfolding fail
  priority_queue = record {
    push = λ priority value s. (Status.not_built, s);
    try_pop_min = λ s. (fail Status.not_built, s);
    size_approx = λ s. 0;
  }
