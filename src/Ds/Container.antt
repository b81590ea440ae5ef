-- ===== src/Ds/Container.antt =====
-- The interface that the stacks and queues of ds/ share: `push` or `try_push`, `try_pop` and
-- `size_approx`.
use paracore.Base.{ℕ, ◌≡◌, refl, List}
use paracore.Core.Status.{Status, Result}
use paracore.Ds.Client.{trace, answers, trace-constant}

-- The operations of a container of `A` whose members are an `S`.
pub record Container (A S : Type 0) : Type 0 where
  pub push : A → S → Status × S
  pub try_pop : S → Result A × S
  pub size_approx : S → ℕ

pub data Call (A : Type 0) : Type 0 where
  push : A → Call A
  try_pop : Call A
  size_approx : Call A

pub data Answer (A : Type 0) : Type 0 where
  pushed : Status → Answer A
  popped : Result A → Answer A
  sized : ℕ → Answer A

module _ {A S : Type 0} (c : Container A S) where
  pub call : Call A → S → Answer A × S
  call (Call.push a) s = let (st, s') = c.push a s in (Answer.pushed st, s')
  call Call.try_pop s = let (r, s') = c.try_pop s in (Answer.popped r, s')
  call Call.size_approx s = (Answer.sized (c.size_approx s), s)

-- What a client sees of a container that is not built.
abbrev pub unbuilt : {A : Type 0} → Call A → Answer A
unbuilt (Call.push _) = Answer.pushed Status.not_built
unbuilt Call.try_pop = Answer.popped (Result.unexpected Status.not_built)
unbuilt Call.size_approx = Answer.sized 0

-- The container whose every operation says that it is not built.
abbrev stub : {A S : Type 0} → Container A S
stub = record {
  push = λ a s. (Status.not_built, s);
  try_pop = λ s. (Result.unexpected Status.not_built, s);
  size_approx = λ s. 0;
}

call-unbuilt : {A S : Type 0} (k : Call A) (s : S) → call stub k s ≡ (unbuilt k, s)
unfolding call
call-unbuilt (Call.push a) s = refl
call-unbuilt Call.try_pop s = refl
call-unbuilt Call.size_approx s = refl

-- Any sequence of calls on a container that equals it.
pub trace-unbuilt :
    {A S : Type 0} (c : Container A S)
    → c ≡ stub
    → (ks : List (Call A)) (s : S) → trace (call c) ks s ≡ (answers unbuilt ks, s)
trace-unbuilt c eq = trace-constant (call c) unbuilt (λ k s. rw (eq, call-unbuilt k s))
