-- ===== src/Sync/Peterson/Invariant/Defs.antt =====
-- The invariant of the threads that share a PetersonLock.
use paracore.Base.{ℕ, ◌≤◌, ◌<◌, ◌≡◌, ◌≢◌, ◌⊎◌}
use paracore.Sync.Peterson.{Slot, first, second, index, flag, victim, owner, Members, Caller, Pc}

-- `me` owns slot `i` and has its flag up.
abbrev pub Raised : Members → ℕ → Slot → Type 0
Raised m me i = (m (owner i) ≡ me) × (m (flag i) ≡ 1)

-- A slot of `me` has its flag down.
abbrev pub Quiet : Members → ℕ → Type 0
Quiet m me =
    ((m (owner first) ≡ me → m (flag first) ≡ 0) × (m (owner second) ≡ me → m (flag second) ≡ 0))

-- What `get_or_assign_index` keeps for its caller.
abbrev pub Kept : Members → ℕ → Caller → Type 0
Kept m me Caller.lock = Quiet m me
Kept m me Caller.unlock = Raised m me first ⊎ Raised m me second

-- What a thread with id `me` that stands at a place knows.
abbrev pub Local : Members → ℕ → Pc → Type 0
Local m me Pc.outside = Quiet m me
Local m me (Pc.claim_first c) = Kept m me c
Local m me (Pc.check_first c) = Kept m me c × (m (owner first) ≢ 0)
Local m me (Pc.claim_second c) = Kept m me c × (m (owner first) ≢ 0) × (m (owner first) ≢ me)
Local m me (Pc.check_second c) =
    Kept m me c × (m (owner first) ≢ 0) × (m (owner first) ≢ me) × (m (owner second) ≢ 0)
Local m me (Pc.raise_flag i) = (m (owner i) ≡ me) × (m (flag i) ≡ 0)
Local m me (Pc.yield_to i) = Raised m me i
Local m me (Pc.see_flag i) = Raised m me i
Local m me (Pc.see_victim i) = Raised m me i
Local m me Pc.inside = Raised m me first ⊎ Raised m me second
Local m me (Pc.lower_flag i) = Raised m me i
Local m me Pc.aborted =
    (m (owner first) ≢ 0)
    × (m (owner first) ≢ me)
    × (m (owner second) ≢ 0)
    × (m (owner second) ≢ me)

-- The thread holds the lock: `lock()` has returned and `unlock()` has not put its flag down.
abbrev pub Holds : Pc → Type 0
Holds Pc.inside = Unit
Holds (Pc.claim_first Caller.unlock) = Unit
Holds (Pc.check_first Caller.unlock) = Unit
Holds (Pc.claim_second Caller.unlock) = Unit
Holds (Pc.check_second Caller.unlock) = Unit
Holds (Pc.lower_flag _) = Unit
Holds _ = ⊥

-- The thread waits in slot `i`.
abbrev pub Waits : Pc → Slot → Type 0
Waits (Pc.see_flag i) j = index i ≡ index j
Waits (Pc.see_victim i) j = index i ≡ index j
Waits _ j = ⊥

pub record Inv (n : ℕ) (ids : ℕ → ℕ) (m : Members) (pc : ℕ → Pc) : Type 0 where
  pub in_order : m (owner second) ≢ 0 → m (owner first) ≢ 0
  pub apart : m (owner second) ≢ 0 → m (owner first) ≢ m (owner second)
  pub free :
      (m (owner first) ≡ 0 → m (flag first) ≡ 0) × (m (owner second) ≡ 0 → m (flag second) ≡ 0)
  pub index_of : m victim ≤ 1
  pub own : (t : ℕ) → t < n → Local m (ids t) (pc t)
  -- while one thread holds the lock, another that waits is the victim
  pub excluded :
      (t u : ℕ) (i : Slot)
      → t < n
      → u < n
      → t ≢ u
      → Holds (pc t)
      → Waits (pc u) i
      → m victim ≡ index i
  pub alone : (t u : ℕ) → t < n → u < n → Holds (pc t) → Holds (pc u) → t ≡ u
