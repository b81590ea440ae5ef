-- ===== src/Sync/Peterson.antt =====
-- sync/peterson_lock.hpp and src/sync/peterson_lock.cpp: Peterson's lock for two threads.
-- A thread's code is written once, as the access it makes next and where it goes with the value
-- that comes back; System interleaves threads on one memory, Buffered runs the same code with
-- store buffers.
pub mod System
pub mod Invariant
pub mod Safety
pub mod Progress
pub mod Aborts
pub mod Waiting
pub mod Bypass
pub mod Guarded
pub mod Workers
pub mod Occupied
pub mod Owned
pub mod Starvation
pub mod Returns
pub mod Solo
pub mod Buffered
use paracore.Base.{ℕ, String, Bool, true, false, ◌==◌, if◌then◌else◌}
use paracore.Sync.Memory
use paracore.Sync.Memory.{Order, Access, Cells}

-- `PetersonLock::name()`
abbrev pub name : String
name = "peterson"

-- The index of a slot, 0 or 1.
pub data Slot : Type 0 where
  first second : Slot

-- `1 - i`
abbrev pub other : Slot → Slot
other Slot.first = Slot.second
other Slot.second = Slot.first

abbrev pub index : Slot → ℕ
index Slot.first = 0
index Slot.second = 1

abbrev pub same_slot : Slot → Slot → Bool
same_slot Slot.first Slot.first = true
same_slot Slot.second Slot.second = true
same_slot _ _ = false

-- The atomic members of `class PetersonLock`.
pub data Cell : Type 0 where
  flag : Slot → Cell
  victim : Cell
  owner : Slot → Cell

abbrev pub same_cell : Cell → Cell → Bool
same_cell (Cell.flag i) (Cell.flag j) = same_slot i j
same_cell Cell.victim Cell.victim = true
same_cell (Cell.owner i) (Cell.owner j) = same_slot i j
same_cell _ _ = false

abbrev pub lock_cells : Cells
lock_cells = record { Cell = Cell; same = same_cell }

abbrev pub Members : Type 0
Members = Memory.Memory lock_cells

-- `PetersonLock::PetersonLock()` stores 0 in every member.
abbrev pub new : Members
new _ = 0

-- Who called `get_or_assign_index`.
pub data Caller : Type 0 where
  lock unlock : Caller

-- Where a thread stands, between two shared accesses.
pub data Pc : Type 0 where
  outside : Pc
  claim_first : Caller → Pc  -- before the compare-exchange on owner_[0]
  check_first : Caller → Pc  -- before the load of owner_[0]
  claim_second : Caller → Pc  -- before the compare-exchange on owner_[1]
  check_second : Caller → Pc  -- before the load of owner_[1]
  raise_flag : Slot → Pc  -- before `flag_[i].store(true)`
  yield_to : Slot → Pc  -- before `victim_.store(i)`
  see_flag : Slot → Pc  -- before the load of flag_[j]
  see_victim : Slot → Pc  -- before the load of victim_
  inside : Pc  -- `lock()` has returned
  lower_flag : Slot → Pc  -- before `flag_[i].store(false)`
  aborted : Pc

-- The orderings of the stores of `flag_` and of `victim_`. Those of the code are both `release`.
pub record Orders : Type 0 where
  pub of_flag : Order
  pub of_victim : Order

abbrev pub everywhere : Order → Orders
everywhere o = record { of_flag = o; of_victim = o }

-- The access that a thread with `thread_id()` `me` makes next.
abbrev pub access : Orders → ℕ → Pc → Access Cell
access o me Pc.outside = Access.none
access o me (Pc.claim_first _) = Access.cas (Cell.owner Slot.first) 0 me
access o me (Pc.check_first _) = Access.load (Cell.owner Slot.first)
access o me (Pc.claim_second _) = Access.cas (Cell.owner Slot.second) 0 me
access o me (Pc.check_second _) = Access.load (Cell.owner Slot.second)
access o me (Pc.raise_flag i) = Access.store o.of_flag (Cell.flag i) 1
access o me (Pc.yield_to i) = Access.store o.of_victim Cell.victim (index i)
access o me (Pc.see_flag i) = Access.load (Cell.flag (other i))
access o me (Pc.see_victim i) = Access.load Cell.victim
access o me Pc.inside = Access.none
access o me (Pc.lower_flag i) = Access.store o.of_flag (Cell.flag i) 0
access o me Pc.aborted = Access.none

-- `get_or_assign_index` has returned `i` to its caller.
abbrev pub assigned : Caller → Slot → Pc
assigned Caller.lock i = Pc.raise_flag i
assigned Caller.unlock i = Pc.lower_flag i

-- Where the thread goes with the value `v` that its access returned. From `outside` it calls
-- `lock()`, from `inside` it calls `unlock()`; `abort()` is never left.
abbrev pub proceed : ℕ → Pc → ℕ → Pc
proceed me Pc.outside v = Pc.claim_first Caller.lock
proceed me (Pc.claim_first c) v = if v == 1 then assigned c Slot.first else Pc.check_first c
proceed me (Pc.check_first c) v = if v == me then assigned c Slot.first else Pc.claim_second c
proceed me (Pc.claim_second c) v = if v == 1 then assigned c Slot.second else Pc.check_second c
proceed me (Pc.check_second c) v = if v == me then assigned c Slot.second else Pc.aborted
proceed me (Pc.raise_flag i) v = Pc.yield_to i
proceed me (Pc.yield_to i) v = Pc.see_flag i
proceed me (Pc.see_flag i) v = if v == 0 then Pc.inside else Pc.see_victim i
proceed me (Pc.see_victim i) v = if v == index i then Pc.see_flag i else Pc.inside
proceed me Pc.inside v = Pc.claim_first Caller.unlock
proceed me (Pc.lower_flag i) v = Pc.outside
proceed me Pc.aborted v = Pc.aborted
