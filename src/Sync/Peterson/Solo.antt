-- ===== src/Sync/Peterson/Solo.antt =====
-- Calls of PetersonLock that no other thread disturbs: `get_or_assign_index`, `lock` and `unlock`
-- as plain functions of the members, beside the access-by-access code.
use native.Mathlib.Nat.{zero-add, suc-add}
use paracore.Base.{
  ℕ, zero, suc, ◌+◌, ◌≤◌, ◌≡◌, ◌≢◌, ◌⊎◌, ◌∙◌, refl, ap, Bool, true, not, ◌||◌, ◌==◌, if◌then◌else◌,
  Option, none, some, ==_ne, Bool-cases, inl, inr, arith,
}
use paracore.Sync.Memory.{write}
use paracore.Sync.Peterson.{
  Slot, first, second, other, index, flag, victim, owner, Members, lock_cells, Caller, Pc, assigned,
}
use paracore.Sync.Peterson.System.{turn}

-- `PetersonLock::get_or_assign_index`, called by the thread whose `thread_id()` is `id`.
-- `none` is `std::abort()`.
unfoldable pub get_or_assign_index : ℕ → Members → Option Slot × Members
get_or_assign_index id m =
    if m (owner first) == 0
    then (some first, write lock_cells m (owner first) id)
    else if m (owner first) == id
    then (some first, m)
    else if m (owner second) == 0
    then (some second, write lock_cells m (owner second) id)
    else if m (owner second) == id
    then (some second, m)
    else (none, m)

-- `lock()` after `get_or_assign_index`, up to the end of the first round of its loop: `none` is
-- `std::abort()`, and the Boolean says whether the round leaves the loop.
abbrev pub lock_from : Option Slot → Members → Option Bool × Members
lock_from none m = (none, m)
lock_from (some i) m =
    let m' : Members = write lock_cells (write lock_cells m (flag i) 1) victim (index i) in
    (some (m' (flag (other i)) == 0 || not (m' victim == index i)), m')

unfoldable pub lock_once : ℕ → Members → Option Bool × Members
lock_once id m = let (slot, m') = get_or_assign_index id m in lock_from slot m'

-- `unlock()`.
abbrev pub unlock_from : Option Slot → Members → Option (Unit {0}) × Members
unlock_from none m = (none, m)
unlock_from (some i) m = (some tt, write lock_cells m (flag i) 0)

unfoldable pub unlock_alone : ℕ → Members → Option (Unit {0}) × Members
unlock_alone id m = let (slot, m') = get_or_assign_index id m in unlock_from slot m'

-- `k` accesses in a row of the thread `id`.
unfoldable pub solo : ℕ → ℕ → Members × Pc → Members × Pc
solo id zero s = s
solo id (suc k) (m, p) = solo id k (turn id p m)

-- Where a caller stands when `get_or_assign_index` has answered.
abbrev pub answered : Caller → Option Slot → Pc
answered c none = Pc.aborted
answered c (some i) = assigned c i

-- Undisturbed, the compare-exchanges and loads that the access-by-access code makes compute
-- `get_or_assign_index`: after at most four of them the caller stands where that answer sends it,
-- with the members it leaves.
pub claim-solo :
    (id : ℕ) (m : Members) (c : Caller)
    → let (slot, m') = get_or_assign_index id m in
      (k : ℕ) × (k ≤ 4) × (solo id k (m, Pc.claim_first c) ≡ (m', answered c slot))
unfolding get_or_assign_index solo
claim-solo id m c = elim (Bool-cases (m (owner first) == 0)) [
  | inl free ↦ (1, omega arith, rw free)
  | inr held ↦ elim (Bool-cases (m (owner first) == id)) [
    | inl mine ↦ (2, omega arith, rw (held, mine))
    | inr theirs ↦ elim (Bool-cases (m (owner second) == 0)) [
      | inl free ↦ (3, omega arith, rw (held, theirs, free))
      | inr taken ↦ elim (Bool-cases (m (owner second) == id)) [
        | inl mine ↦ (4, omega arith, rw (held, theirs, taken, mine))
        | inr third ↦ (4, omega arith, rw (held, theirs, taken, third))
      ]
    ]
  ]
]

solo-add : (id j k : ℕ) (s : Members × Pc) → solo id (j + k) s ≡ solo id k (solo id j s)
unfolding solo
solo-add id zero k s = rw zero-add
solo-add id (suc j) k s = rw suc-add (solo-add id j k (turn id s.1 s.0))

-- From the start of a call to the end of `get_or_assign_index` and `k` accesses further.
call-solo :
    (id k : ℕ) (m : Members) (p : Pc) (c : Caller) (s : Members × Pc)
    → turn id p m ≡ (m, Pc.claim_first c)
    → (let (slot, m') = get_or_assign_index id m in solo id k (m', answered c slot) ≡ s)
    → (j : ℕ) × (j ≤ 5 + k) × (solo id j (m, p) ≡ s)
unfolding solo
call-solo id k m p c s e rest =
    let (j, bound, claimed) = claim-solo id m c in
    (
      suc (j + k),
      omega arith,
      ap (solo id (j + k)) e
          ∙ (solo-add id j k (m, Pc.claim_first c) ∙ (ap (solo id k) claimed ∙ rest)),
    )

lock_from-solo :
    (id : ℕ) (slot : Option Slot) (m : Members)
    → (lock_from slot m).0 ≡ some true
    → solo id 3 (m, answered Caller.lock slot) ≡ ((lock_from slot m).1, Pc.inside)
unfolding solo
lock_from-solo id none m e = cc
lock_from-solo id (some Slot.first) m e = ground arith
lock_from-solo id (some Slot.second) m e = ground arith

unlock_from-solo :
    (id : ℕ) (slot : Option Slot) (m : Members)
    → (unlock_from slot m).0 ≡ some tt
    → solo id 1 (m, answered Caller.unlock slot) ≡ ((unlock_from slot m).1, Pc.outside)
unfolding solo
unlock_from-solo id none m e = cc
unlock_from-solo id (some i) m e = refl

-- A call of `lock` that nobody disturbs, and whose first round passes a test of the loop, returns
-- after at most eight accesses, with the members that `lock_once` gives.
pub lock-solo :
    (id : ℕ) (m : Members)
    → (lock_once id m).0 ≡ some true
    → (k : ℕ) × (k ≤ 8) × (solo id k (m, Pc.outside) ≡ ((lock_once id m).1, Pc.inside))
unfolding lock_once
lock-solo id m e =
    call-solo id 3 m Pc.outside Caller.lock _ refl
      (lock_from-solo id (get_or_assign_index id m).0 (get_or_assign_index id m).1 e)

-- A call of `unlock` that nobody disturbs, and that does not abort, returns after at most six
-- accesses, with the members that `unlock_alone` gives.
pub unlock-solo :
    (id : ℕ) (m : Members)
    → (unlock_alone id m).0 ≡ some tt
    → (k : ℕ) × (k ≤ 6) × (solo id k (m, Pc.inside) ≡ ((unlock_alone id m).1, Pc.outside))
unfolding unlock_alone
unlock-solo id m e =
    call-solo id 1 m Pc.inside Caller.unlock _ refl
      (unlock_from-solo id (get_or_assign_index id m).0 (get_or_assign_index id m).1 e)

-- `lock` and then `unlock`, undisturbed, by a thread with an id that is not 0 that owns a slot or
-- finds one free, while both flags are down: neither blocks nor aborts, both flags are down again,
-- and the thread has a slot.
pub lock-unlock :
    (id : ℕ) (m : Members)
    → id ≢ 0
    → m (flag first) ≡ 0
    → m (flag second) ≡ 0
    → (m (owner first) ≡ 0)
      ⊎ (m (owner first) ≡ id)
      ⊎ (m (owner second) ≡ 0)
      ⊎ (m (owner second) ≡ id)
    → let (entered, m') = lock_once id m in
      let (left, m'') = unlock_alone id m' in
      (entered ≡ some true)
      × (left ≡ some tt)
      × (m'' (flag first) ≡ 0)
      × (m'' (flag second) ≡ 0)
      × ((m'' (owner first) ≡ id) ⊎ (m'' (owner second) ≡ id))
unfolding lock_once unlock_alone get_or_assign_index
lock-unlock id m named low high room = ground arith

no_slot :
    (id : ℕ) (m : Members)
    → m (owner first) ≢ 0
    → m (owner second) ≢ 0
    → m (owner first) ≢ id
    → m (owner second) ≢ id
    → get_or_assign_index id m ≡ (none, m)
unfolding get_or_assign_index
no_slot id m a b d e = rw (==_ne _ _ a, ==_ne _ _ d, ==_ne _ _ b, ==_ne _ _ e)

-- When both slots are taken and neither by the calling thread, `get_or_assign_index` aborts after
-- at most four undisturbed accesses, in `lock` and in `unlock`, and leaves the members alone.
pub third-aborts :
    (id : ℕ) (m : Members) (c : Caller)
    → m (owner first) ≢ 0
    → m (owner second) ≢ 0
    → m (owner first) ≢ id
    → m (owner second) ≢ id
    → (k : ℕ) × (k ≤ 4) × (solo id k (m, Pc.claim_first c) ≡ (m, Pc.aborted))
third-aborts id m c a b d e =
    let (k, bound, done) = claim-solo id m c in (k, bound, done ∙ rw (no_slot id m a b d e))
