-- ===== src/Core/Barrier.antt =====
-- core/barrier.hpp and `Future` of core/task.hpp, whose operations answer `Status::NotBuilt`.
use paracore.Base.{ℕ, Bool, false, Option, none, some}
use paracore.Core.Status.{Status, Result, fail}

pub data Arrival : Type 0 where
  follower leader : Arrival

pub record SenseBarrier : Type 0 where
  pub parties : ℕ

pub record TournamentBarrier : Type 0 where
  pub parties : ℕ

pub record TreeBarrier : Type 0 where
  pub parties : ℕ

-- `arrive_and_wait` and `parties` of a barrier whose members are an `S`.
pub record BarrierOps (S : Type 0) : Type 0 where
  pub arrive_and_wait : S → Result Arrival × S
  pub parties : S → ℕ

abbrev pub sense_barrier : BarrierOps SenseBarrier
unfolding fail
sense_barrier = record {
  arrive_and_wait = λ s. (fail Status.not_built, s);
  parties = λ s. s.parties;
}

abbrev pub tournament_barrier : BarrierOps TournamentBarrier
unfolding fail
tournament_barrier = record {
  arrive_and_wait = λ s. (fail Status.not_built, s);
  parties = λ s. s.parties;
}

abbrev pub tree_barrier : BarrierOps TreeBarrier
unfolding fail
tree_barrier = record {
  arrive_and_wait = λ s. (fail Status.not_built, s);
  parties = λ s. s.parties;
}

-- `Future<T>`: the pointer to the state that it shares with its job, which nothing makes yet.
pub record Future : Type 0 where
  pub state : Option ℕ

module _ {A : Type 0} where
  abbrev pub get : Future → Result A
  unfolding fail
  get f = fail Status.not_built

  -- The timeout is in milliseconds.
  abbrev pub get_for : ℕ → Future → Result A
  unfolding fail
  get_for timeout f = fail Status.not_built

abbrev pub is_ready : Future → Bool
is_ready f = false

abbrev pub valid : Future → Bool
valid f = elim f.state [ none ↦ false | some p ↦ Bool.true ]
