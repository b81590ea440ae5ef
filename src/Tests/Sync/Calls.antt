-- ===== src/Tests/Sync/Calls.antt =====
-- Calls of a PetersonLock that nobody disturbs, on a new lock and on one with both slots taken.
use paracore.Base.{ℕ, ◌≤◌, ◌≡◌, ◌⊎◌, refl, inl, inr, true, some, arith}
use paracore.Sync.Memory.{write}
use paracore.Sync.Peterson.{first, second, flag, owner, Members, lock_cells, new, Caller, Pc}
use paracore.Sync.Peterson.Solo.{
  get_or_assign_index, lock_once, unlock_alone, solo, claim-solo, lock-unlock,
}

-- Slot 0 belongs to the thread with id 1.
abbrev one_taken : Members
one_taken = write lock_cells new (owner first) 1

-- Slot 1 belongs to the thread with id 2.
abbrev two_taken : Members
two_taken = write lock_cells one_taken (owner second) 2

claim-solo_example :
    (k : ℕ) × (k ≤ 4)
    × (solo 2 k (one_taken, Pc.claim_first Caller.lock) ≡ (two_taken, Pc.raise_flag second))
unfolding get_or_assign_index
claim-solo_example = claim-solo 2 one_taken Caller.lock

lock-unlock_example :
    ((lock_once 2 one_taken).0 ≡ some true)
    × ((unlock_alone 2 (lock_once 2 one_taken).1).0 ≡ some tt)
    × ((unlock_alone 2 (lock_once 2 one_taken).1).1 (flag first) ≡ 0)
    × ((unlock_alone 2 (lock_once 2 one_taken).1).1 (flag second) ≡ 0)
    × (((unlock_alone 2 (lock_once 2 one_taken).1).1 (owner first) ≡ 2)
        ⊎ ((unlock_alone 2 (lock_once 2 one_taken).1).1 (owner second) ≡ 2))
lock-unlock_example = lock-unlock 2 one_taken (omega arith) refl refl (inr (inr (inl refl)))
