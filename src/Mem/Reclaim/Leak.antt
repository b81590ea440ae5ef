-- ===== src/Mem/Reclaim/Leak.antt =====
-- What LeakDomain counts.
use paracore.Base.{ℕ, ◌≡◌, refl, ◌+◌, ◌%◌, ◌^◌, ◌<◌, List, [], ◌∷◌, arith}
use paracore.Mem.Reclaim.{LeakDomain, Domain, leak_domain}

-- What a client of a domain does: retire a node or run a round of reclamation.
pub data Call (N : Type 0) : Type 0 where
  retire : N → Call N
  reclaim : Call N

-- The domain after these calls, with the number of nodes that the rounds freed.
abbrev pub run : {N S : Type 0} → Domain N S → List (Call N) → S → ℕ × S
run ops [] s = (0, s)
run ops (Call.retire n ∷ ks) s = run ops ks (ops.retire n s).1
run ops (Call.reclaim ∷ ks) s =
    let (k, s') = ops.reclaim s in let (rest, s'') = run ops ks s' in (k + rest, s'')

abbrev pub retires : {N : Type 0} → List (Call N) → ℕ
retires [] = 0
retires (Call.retire n ∷ ks) = 1 + retires ks
retires (Call.reclaim ∷ ks) = retires ks

-- Whatever is retired, and however often a round runs, a LeakDomain whose count is a 64-bit number
-- frees nothing, and its count goes up by the number of nodes retired, modulo 2 ^ 64.
pub leak_counts :
    {N : Type 0} (ks : List (Call N)) (d : LeakDomain)
    → d.retired < 2 ^ 64
    → ((run leak_domain ks d).0 ≡ 0)
      × ((leak_domain {N = N}).retired_count (run leak_domain ks d).1
          ≡ (d.retired + retires ks) % 2 ^ 64)
leak_counts [] d small = (refl, omega arith)
leak_counts (Call.retire n ∷ ks) d small =
    let (none_freed, count) = leak_counts ks (leak_domain.retire n d).1 (ground arith) in
    (none_freed, (omega arith))
leak_counts (Call.reclaim ∷ ks) d small =
    let (none_freed, count) = leak_counts ks d small in ((omega arith), count)
