-- ===== src/Suite/Peterson.antt =====
-- tests/test_peterson.cpp: the two tests of one thread, and what the two tests of two threads assert when
-- their workers, which are Sync.Peterson.Workers, have been joined.
pub mod Passes
use paracore.Base.{
  ℕ, zero, suc, ◌*◌, ◌≡◌, ◌≢◌, ◌⊎◌, refl, Bool, true, false, Option, none, some, arith,
}
use paracore.Sync.Peterson.{first, second, flag, owner, Members, new, name}
use paracore.Sync.Peterson.Solo.{lock_once, unlock_alone, lock-unlock}
use paracore.Sync.Peterson.Workers.{Workers}
use paracore.Sync.Peterson.Workers.Counter.{counting}
use paracore.Sync.Peterson.Workers.Occupancy.{occupying}
use paracore.Suite.Asserts.{Test, same_text, assert, assert_eq}

-- `peterson_has_its_name`
unfoldable pub peterson_has_its_name : Test
unfolding assert
peterson_has_its_name = assert "PetersonLock::name() == \"peterson\"" (same_text name "peterson")

-- `unlock()` by the guard, if the lock was taken in the first round of the loop of `lock()`.
abbrev unlocked : ℕ → Option Bool × Members → Option Members
unlocked id (some true, m) = elim (unlock_alone id m).0 [
  | some u ↦ some (unlock_alone id m).1
  | none ↦ none
]
unlocked id (r, m) = none

-- `rounds` blocks with a `lock_guard` each, by the thread whose id is `id`: the members after them, or
-- `none` if a call aborted or was to wait.
unfoldable pub guarded_rounds : (id rounds : ℕ) → Members → Option Members
guarded_rounds id zero m = some m
guarded_rounds id (suc n) m = elim (unlocked id (lock_once id m)) [
  | none ↦ none
  | some m' ↦ guarded_rounds id n m'
]

-- `peterson_single_thread_lock_unlock`
unfoldable pub peterson_single_thread_lock_unlock : (id : ℕ) → Option Members
unfolding guarded_rounds
peterson_single_thread_lock_unlock id = guarded_rounds id 1000 new

-- Between the blocks both flags are down, and the thread has a slot or finds one.
record Ready (id : ℕ) (m : Members) : Type 0 where
  low : m (flag first) ≡ 0
  high : m (flag second) ≡ 0
  room :
      (m (owner first) ≡ 0)
      ⊎ (m (owner first) ≡ id)
      ⊎ (m (owner second) ≡ 0)
      ⊎ (m (owner second) ≡ id)

unlocked_lem :
    (id : ℕ) (p : Option Bool × Members)
    → p.0 ≡ some true
    → (unlock_alone id p.1).0 ≡ some tt
    → unlocked id p ≡ some (unlock_alone id p.1).1
unlocked_lem id (some true, m) e f = rw (unlocked, f) refl
unlocked_lem id (some false, m) e f = ground (arith, e)
unlocked_lem id (none, m) e f = cc

block-Ready :
    (id : ℕ) (m : Members)
    → id ≢ 0
    → Ready id m
    → (m' : Members) × (unlocked id (lock_once id m) ≡ some m') × Ready id m'
block-Ready id m named r =
    let (entered, left, low, high, mine) = lock-unlock id m named r.low r.high r.room in
    (
      (unlock_alone id (lock_once id m).1).1,
      unlocked_lem id (lock_once id m) entered left,
      record { low = low; high = high; room = ground (arith, mine) },
    )

-- One thread alone, with any id that is not 0, takes and gives back a PetersonLock whose flags are down
-- and where it finds a slot, as often as it likes: no call aborts or waits.
rounds_return :
    (id n : ℕ) (m : Members)
    → id ≢ 0
    → Ready id m
    → (m' : Members) × (guarded_rounds id n m ≡ some m')
unfolding guarded_rounds
rounds_return id zero m named r = (m, refl)
rounds_return id (suc n) m named r =
    let (m', block, r') = block-Ready id m named r in
    let (end, rest) = rounds_return id n m' named r' in (end, rw (guarded_rounds, block) rest)

-- `peterson_two_threads_counter` once both workers are joined, with `rounds` for `kRounds`.
unfoldable pub peterson_two_threads_counter : (rounds : ℕ) → Workers counting → Test
unfolding assert_eq
peterson_two_threads_counter rounds s =
    assert_eq "counter" "2L * kRounds" s.state.counter (2 * rounds)

-- `peterson_two_threads_occupancy` once both workers are joined.
unfoldable pub peterson_two_threads_occupancy : Workers occupying → Test
unfolding assert_eq
peterson_two_threads_occupancy s = assert_eq "overlaps.load()" "0" s.state.overlaps 0
