-- ===== src/Ds/Set.antt =====
-- ds/set.hpp and ds/detail/set_impl.hpp: five sorted-list sets. The comparator, which no stub calls,
-- and the mutex of CoarseSet, which none locks, are left out.
use paracore.Base.{ℕ, none, false}
use paracore.Core.Status.{Status}
use paracore.Ds.Client.{Pointer}
use paracore.Ds.Keyed.{SetOps}

pub record CoarseSet : Type 0 where
  pub head : Pointer
  pub size : ℕ

pub record FineSet : Type 0 where
  pub head : Pointer

pub record OptimisticSet : Type 0 where
  pub head : Pointer

pub record LazySet : Type 0 where
  pub head : Pointer

pub record LockFreeSet : Type 0 where
  pub head : Pointer

abbrev pub new_coarse : CoarseSet
new_coarse = record { head = none; size = 0 }

abbrev pub new_fine : FineSet
new_fine = record { head = none }

abbrev pub new_optimistic : OptimisticSet
new_optimistic = record { head = none }

abbrev pub new_lazy : LazySet
new_lazy = record { head = none }

abbrev pub new_lock_free : LockFreeSet
new_lock_free = record { head = none }

module _ {A : Type 0} where
  abbrev pub coarse_set : SetOps A A CoarseSet
  coarse_set = record {
    add = λ key s. (Status.not_built, s);
    remove = λ key s. (Status.not_built, s);
    contains = λ key s. false;
    size_approx = λ s. 0;
  }

  abbrev pub fine_set : SetOps A A FineSet
  fine_set = record {
    add = λ key s. (Status.not_built, s);
    remove = λ key s. (Status.not_built, s);
    contains = λ key s. false;
    size_approx = λ s. 0;
  }

  abbrev pub optimistic_set : SetOps A A OptimisticSet
  optimistic_set = record {
    add = λ key s. (Status.not_built, s);
    remove = λ key s. (Status.not_built, s);
    contains = λ key s. false;
    size_approx = λ s. 0;
  }

  abbrev pub lazy_set : SetOps A A LazySet
  lazy_set = record {
    add = λ key s. (Status.not_built, s);
    remove = λ key s. (Status.not_built, s);
    contains = λ key s. false;
    size_approx = λ s. 0;
  }

  abbrev pub lock_free_set : SetOps A A LockFreeSet
  lock_free_set = record {
    add = λ key s. (Status.not_built, s);
    remove = λ key s. (Status.not_built, s);
    contains = λ key s. false;
    size_approx = λ s. 0;
  }
