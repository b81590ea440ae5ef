-- ===== src/Playground/Adders/Sums.antt =====
-- What the slots hold when all threads are done.
use native.Mathlib.Nat.{mod-eq_of_lt}
use paracore.Base.{
  ℕ, zero, suc, ◌+◌, ◌-◌, ◌*◌, ◌^◌, ◌≤◌, ◌<◌, ◌≡◌, ◌≢◌, refl, Option, none, some, ◌∙◌, List, [],
  ◌∷◌, true, ◌==◌, if◌then◌else◌, Bool-cases, ==→ne, ==_refl, inl, inr, update, Among, arith,
}
use paracore.Playground.Adders.{
  Adders, round, rounds, long_size, k_iters, shared_slot, start, correct, max_threads, own_slot,
  slot_count,
}

-- The rounds that the first `n` threads have left for the slot `c`.
abbrev pub pending : (slot_of : ℕ → ℕ) (left : ℕ → ℕ) (n c : ℕ) → ℕ
pending slot_of left zero c = 0
pending slot_of left (suc n) c = pending slot_of left n c + (if slot_of n == c then left n else 0)

pending-later :
    (slot_of left : ℕ → ℕ) (n c t v : ℕ)
    → n ≤ t
    → pending slot_of (update left t v) n c ≡ pending slot_of left n c
pending-later slot_of left zero c t v h = refl
pending-later slot_of left (suc n) c t v h = ground (arith, pending-later slot_of left n c t v)

-- A round of thread `t` takes one from its slot's.
pub pending-round :
    (slot_of left : ℕ → ℕ) (n c t : ℕ)
    → t < n
    → left t ≢ 0
    → pending slot_of (update left t (left t - 1)) n c + (if slot_of t == c then 1 else 0)
      ≡ pending slot_of left n c
pending-round slot_of left zero c t h more = elim h [ ]
pending-round slot_of left (suc n) c t h more = elim (Bool-cases (t == n)) [
  | inl last ↦ ground (arith, pending-later slot_of left n c t (left t - 1))
  | inr earlier ↦ ground (arith, pending-round slot_of left n c t)
]

-- What is in a slot and what is still to be added make `want`.
abbrev Adds : (size : ℕ) (slot_of : ℕ → ℕ) (n c want : ℕ) → Adders → Type 0
Adds size slot_of n c want s = s.slot c + pending slot_of s.left n c ≡ want

round-Adds :
    (size : ℕ) (slot_of : ℕ → ℕ) (n c want t : ℕ) (s : Adders)
    → want < size
    → t < n
    → Adds size slot_of n c want s
    → Adds size slot_of n c want (round size slot_of t s)
unfolding round
round-Adds size slot_of n c want t s fits here adds = elim (Bool-cases (s.left t == 0)) [
  | inl done ↦ rw done adds
  | inr more ↦ rw more (
      ground (
        arith,
        pending-round slot_of s.left n c t here (==→ne _ _ more),
        λ (h : s.slot c + 1 < size). mod-eq_of_lt h,
      ))
]

rounds-Adds :
    (size : ℕ) (slot_of : ℕ → ℕ) (n c want : ℕ) (ts : List ℕ) (s : Adders)
    → want < size
    → Among n ts
    → Adds size slot_of n c want s
    → Adds size slot_of n c want (rounds size slot_of ts s)
unfolding rounds
rounds-Adds size slot_of n c want [] s fits here adds = adds
rounds-Adds size slot_of n c want (t ∷ ts) s fits here adds =
    rounds-Adds size slot_of n c want ts (round size slot_of t s) fits here.1
      (round-Adds size slot_of n c want t s fits here.0 adds)

-- The first `n` threads are done.
abbrev pub Done : ℕ → (ℕ → ℕ) → Type 0
Done n left = (t : ℕ) → t < n → left t ≡ 0

pending-Done : (slot_of left : ℕ → ℕ) (n c : ℕ) → Done n left → pending slot_of left n c ≡ 0
pending-Done slot_of left zero c done = refl
pending-Done slot_of left (suc n) c done =
    ground (arith, done n, pending-Done slot_of left n c (λ t h. done t (omega arith)))

pub pending_shared : (k n : ℕ) → pending shared_slot (λ _. k) n 0 ≡ n * k
pending_shared k zero = omega arith
pending_shared k (suc n) = grind (arith, pending_shared k n)

pending_none : (k n c : ℕ) → n ≤ c → pending own_slot (λ _. k) n c ≡ 0
pending_none k zero c h = refl
pending_none k (suc n) c h = ground (arith, pending_none k n c)

pub pending_own : (k n c : ℕ) → c < n → pending own_slot (λ _. k) n c ≡ k
pending_own k zero c h = elim h [ ]
pending_own k (suc n) c h = ground (arith, pending_own k n c, pending_none k n c)

-- When all threads are done, a slot holds what the threads were to add to it.
pub slot-Done :
    (size : ℕ) (slot_of : ℕ → ℕ) (n c iters : ℕ) (ts : List ℕ)
    → pending slot_of (λ _. iters) n c < size
    → Among n ts
    → Done n (rounds size slot_of ts (start iters)).left
    → (rounds size slot_of ts (start iters)).slot c ≡ pending slot_of (λ _. iters) n c
slot-Done size slot_of n c iters ts fits here done = omega (
  arith,
  rounds-Adds size slot_of n c (pending slot_of (λ _. iters) n c) ts (start iters) fits here
      (omega arith),
  pending-Done slot_of (rounds size slot_of ts (start iters)).left n c done,
)

-- With fewer than 2 ^ 32 threads, when all of them are through with their rounds of `fetch_add` on
-- one counter, in whatever order they made them, the counter of counter.cpp is the number of
-- threads times the rounds, and it prints "correct".
pub counter_correct :
    (n : ℕ) (ts : List ℕ)
    → n < 2 ^ 32
    → Among n ts
    → Done n (rounds long_size shared_slot ts (start k_iters)).left
    → ((rounds long_size shared_slot ts (start k_iters)).slot 0 ≡ n * k_iters)
      × (correct n ((rounds long_size shared_slot ts (start k_iters)).slot 0) ≡ true)
unfolding correct
counter_correct n ts few here done = (sum, rw sum (==_refl (n * k_iters)))
  where
    sum : (rounds long_size shared_slot ts (start k_iters)).slot 0 ≡ n * k_iters
    sum =
        slot-Done long_size shared_slot n 0 k_iters ts (omega (arith, pending_shared k_iters n))
          here done
        ∙ pending_shared k_iters n

slot_count-le : (hardware : ℕ) (parsed : Option ℕ) → slot_count hardware parsed ≤ max_threads
unfolding slot_count
slot_count-le hardware none = ground arith
slot_count-le hardware (some n) = ground arith

-- In falsesharing.cpp, whatever the argument asks for, each thread has a slot within the array, and
-- when all threads are through with rounds that fit a slot, in whatever order they made them, each
-- slot holds the number of rounds.
sharing_counts :
    (size iters hardware : ℕ) (parsed : Option ℕ) (ts : List ℕ)
    → iters < size
    → Among (slot_count hardware parsed) ts
    → Done (slot_count hardware parsed) (rounds size own_slot ts (start iters)).left
    → (i : ℕ) → i < slot_count hardware parsed
    → (i < max_threads) × ((rounds size own_slot ts (start iters)).slot i ≡ iters)
sharing_counts size iters hardware parsed ts fits here done i lt = (
  omega (arith, slot_count-le hardware parsed),
  slot-Done size own_slot n i iters ts (omega (arith, own)) here done ∙ own,
)
  where
    n : ℕ
    n = slot_count hardware parsed

    own : pending own_slot (λ _. iters) n i ≡ iters
    own = pending_own iters n i lt
