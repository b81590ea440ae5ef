-- ===== src/Tests/Playground.antt =====
-- Two threads of the measuring programs.
use paracore.Base.{ℕ, zero, suc, ◌*◌, ◌≡◌, refl, true, List, [], ◌∷◌, Among, arith}
use paracore.Playground.Adders.{
  Adders, round, rounds, start, long_size, k_iters, shared_slot, correct,
}
use paracore.Playground.Adders.Sums.{Done, counter_correct}

-- Threads 0 and 1 in turn.
in_turn : ℕ → List ℕ
in_turn zero = []
in_turn (suc k) = 0 ∷ 1 ∷ in_turn k

in_turn-Among : (k : ℕ) → Among 2 (in_turn k)
unfolding in_turn
in_turn-Among zero = tt
in_turn-Among (suc k) = (omega arith, (omega arith, in_turn-Among k))

both_rounds :
    (size : ℕ) (slot_of : ℕ → ℕ) (k : ℕ) (s : Adders)
    → s.left 0 ≡ suc k
    → s.left 1 ≡ suc k
    → ((round size slot_of 1 (round size slot_of 0 s)).left 0 ≡ k)
      × ((round size slot_of 1 (round size slot_of 0 s)).left 1 ≡ k)
unfolding round
both_rounds size slot_of k s a b = ground arith

in_turn-left :
    (size : ℕ) (slot_of : ℕ → ℕ) (k : ℕ) (s : Adders)
    → s.left 0 ≡ k
    → s.left 1 ≡ k
    → ((rounds size slot_of (in_turn k) s).left 0 ≡ 0)
      × ((rounds size slot_of (in_turn k) s).left 1 ≡ 0)
unfolding in_turn rounds
in_turn-left size slot_of zero s a b = (a, b)
in_turn-left size slot_of (suc k) s a b =
    let (a', b') = both_rounds size slot_of k s a b in
    in_turn-left size slot_of k (round size slot_of 1 (round size slot_of 0 s)) a' b'

in_turn-Done :
    (size : ℕ) (slot_of : ℕ → ℕ) (k : ℕ) → Done 2 (rounds size slot_of (in_turn k) (start k)).left
in_turn-Done size slot_of k zero lt = (in_turn-left size slot_of k (start k) refl refl).0
in_turn-Done size slot_of k (suc zero) lt = (in_turn-left size slot_of k (start k) refl refl).1
in_turn-Done size slot_of k (suc (suc t)) lt = absurd (omega arith)

counter_correct_example :
    ((rounds long_size shared_slot (in_turn k_iters) (start k_iters)).slot 0 ≡ 2 * k_iters)
    × (correct 2 ((rounds long_size shared_slot (in_turn k_iters) (start k_iters)).slot 0) ≡ true)
counter_correct_example =
    counter_correct 2 (in_turn k_iters) (omega arith) (in_turn-Among k_iters)
      (in_turn-Done long_size shared_slot k_iters)
