-- ===== src/Playground/Adders/Racing.antt =====
-- The unsynchronised branch of playground/counter.cpp.
use paracore.Base.{
  ℕ, zero, suc, ◌+◌, ◌*◌, ◌≤◌, ◌<◌, ◌≡◌, refl, none, some, List, [], ◌∷◌, ◌==◌, Bool-cases,
  Option-cases, ==→ne, inl, inr, Among, arith,
}
use paracore.Playground.Adders.{Racers, race, races, race_start, long_size, shared_slot}
use paracore.Playground.Adders.Sums.{Done, pending, pending-round, pending_shared}

-- Threads 0 and 1 in step: both load, and then both store.
abbrev in_step : ℕ → List ℕ
in_step zero = []
in_step (suc k) = 0 ∷ 1 ∷ 0 ∷ 1 ∷ in_step k

in_step-Among : (k : ℕ) → Among 2 (in_step k)
in_step-Among zero = tt
in_step-Among (suc k) = (omega arith, (omega arith, (omega arith, (omega arith, in_step-Among k))))

-- One round in step.
in_step_round :
    (k : ℕ) (s : Racers)
    → s.unsynced + 1 < long_size
    → s.loaded 0 ≡ none
    → s.loaded 1 ≡ none
    → s.left 0 ≡ suc k
    → s.left 1 ≡ suc k
    → let s' = races (0 ∷ 1 ∷ 0 ∷ 1 ∷ []) s in
      (s'.unsynced ≡ s.unsynced + 1)
      × (s'.loaded 0 ≡ none)
      × (s'.loaded 1 ≡ none)
      × (s'.left 0 ≡ k)
      × (s'.left 1 ≡ k)
unfolding races race
in_step_round k s fits a b c d = ground (arith)

in_step_lem :
    (k : ℕ) (s : Racers)
    → s.unsynced + k < long_size
    → s.loaded 0 ≡ none
    → s.loaded 1 ≡ none
    → s.left 0 ≡ k
    → s.left 1 ≡ k
    → let s' = races (in_step k) s in
      (s'.unsynced ≡ s.unsynced + k) × (s'.left 0 ≡ 0) × (s'.left 1 ≡ 0)
unfolding races
in_step_lem zero s fits a b c d = (omega arith, c, d)
in_step_lem (suc k) s fits a b c d =
    let (sum, a', b', c', d') = in_step_round k s (omega arith) a b c d in
    let (sum', e, f) = in_step_lem k (races (0 ∷ 1 ∷ 0 ∷ 1 ∷ []) s) (omega arith) a' b' c' d' in
    (omega arith, e, f)

below_two : (left : ℕ → ℕ) → left 0 ≡ 0 → left 1 ≡ 0 → Done 2 left
below_two left a b zero h = a
below_two left a b (suc zero) h = b
below_two left a b (suc (suc t)) h = absurd (omega arith)

-- For two threads that each make `k` rounds of the plain `++`, with k below 2 ^ 64, there is an
-- order of their accesses after which both are through and the counter of counter.cpp is only `k`.
pub unsynced_loses :
    (k : ℕ)
    → k < long_size
    → (ts : List ℕ) × Among 2 ts
      × Done 2 (races ts (race_start k)).left
      × ((races ts (race_start k)).unsynced ≡ k)
unsynced_loses k fits =
    let (sum, e, f) = in_step_lem k (race_start k) (omega arith) refl refl refl refl in
    (in_step k, in_step-Among k, below_two (races (in_step k) (race_start k)).left e f, omega arith)

-- Nothing is counted twice: what is in `unsynced`, or loaded from it, and the rounds that are left
-- make at most `want`.
record AtMost (n want : ℕ) (s : Racers) : Type 0 where
  stored : s.unsynced + pending shared_slot s.left n 0 ≤ want
  taken : (t v : ℕ) → s.loaded t ≡ some v → v + pending shared_slot s.left n 0 ≤ want

race-AtMost :
    (n want t : ℕ) (s : Racers)
    → want < long_size
    → t < n
    → AtMost n want s
    → AtMost n want (race t s)
unfolding race
race-AtMost n want t s fits here most = elim (Bool-cases (s.left t == 0)) [
  | inl done ↦ rw done most
  | inr more ↦ rw more (elim (Option-cases (s.loaded t)) [
    | inl free ↦ rw free (record {
      stored = most.stored;
      taken = λ u v e. ground (arith, most.stored, most.taken u v);
    })
    | inr (w, held) ↦ rw held (record {
      stored = ground (
        arith,
        most.taken t w held,
        pending-round shared_slot s.left n 0 t here (==→ne _ _ more),
      );
      taken = λ u v e.
          ground
            (arith, most.taken u v, pending-round shared_slot s.left n 0 t here (==→ne _ _ more));
    })
  ])
]

races-AtMost :
    (n want : ℕ) (ts : List ℕ) (s : Racers)
    → want < long_size
    → Among n ts
    → AtMost n want s
    → AtMost n want (races ts s)
unfolding races
races-AtMost n want [] s fits here most = most
races-AtMost n want (t ∷ ts) s fits here most =
    races-AtMost n want ts (race t s) fits here.1 (race-AtMost n want t s fits here.0 most)

-- Whatever the order of the accesses, the plain `++` never counts more than the rounds of all threads
-- together, if these fit a `long`.
pub unsynced-le :
    (n k : ℕ) (ts : List ℕ)
    → n * k < long_size
    → Among n ts
    → (races ts (race_start k)).unsynced ≤ n * k
unsynced-le n k ts fits here =
    let most : AtMost n (n * k) (races ts (race_start k)) =
      races-AtMost n (n * k) ts (race_start k) fits here
        (record { stored = omega (arith, pending_shared k n); taken = λ t v e. cc }) in
    omega (arith, most.stored)
