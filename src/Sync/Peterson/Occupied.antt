-- ===== src/Sync/Peterson/Occupied.antt =====
-- `peterson_two_threads_occupancy` of tests/test_peterson.cpp: a PetersonLock, and a worker that
-- counts who is inside and how often it met another there. An `atomic<int>` has 32 bits, and is
-- kept as the number modulo 2 ^ 32 that it stands for.
pub mod Overlaps
use paracore.Base.{ℕ, ◌+◌, ◌-◌, ◌%◌, ◌^◌, ◌<◌, ◌==◌, update, if◌then◌else◌}
use paracore.Sync.Peterson.{Pc}
use paracore.Sync.Peterson.System
use paracore.Sync.Peterson.System.{System}

-- Where a thread stands between `lock()` and `unlock()`: before it adds itself, once it has met
-- another, once that is noted or it was alone, and after it has taken itself off.
pub data Section : Type 0 where
  before met counted after : Section

pub record Occupied : Type 0 where
  pub lock : System
  pub inside : ℕ  -- std::atomic<int>
  pub overlaps : ℕ  -- std::atomic<int>
  pub section : ℕ → Section

-- What a thread does next: a step of the lock's code, or one of its three atomic operations.
pub data Next : Type 0 where
  lock_code enter note leave : Next

abbrev pub next : Pc → Section → Next
next Pc.inside Section.before = Next.enter
next Pc.inside Section.met = Next.note
next Pc.inside Section.counted = Next.leave
next p w = Next.lock_code

unfoldable pub make : (ids : ℕ → ℕ) (t : ℕ) → Next → Occupied → Occupied
make ids t Next.enter s = record s {
  inside = (s.inside + 1) % 2 ^ 32;
  section = update s.section t (if s.inside == 0 then Section.counted else Section.met);
}
make ids t Next.note s = record s {
  overlaps = (s.overlaps + 1) % 2 ^ 32;
  section = update s.section t Section.counted;
}
make ids t Next.leave s = record s {
  inside = (s.inside + (2 ^ 32 - 1)) % 2 ^ 32;
  section = update s.section t Section.after;
}
make ids t Next.lock_code s = record s {
  lock = System.step ids t s.lock;
  section = update s.section t Section.before;
}

-- The next access of thread `t`, if the process has not been aborted.
unfoldable pub step : (ids : ℕ → ℕ) (t : ℕ) → Occupied → Occupied
unfolding make
step ids t s = if s.lock.alive then make ids t (next (s.lock.pc t) (s.section t)) s else s

abbrev pub init : Occupied
init = record { lock = System.init; inside = 0; overlaps = 0; section = λ _. Section.before }

pub data Reach (n : ℕ) (ids : ℕ → ℕ) : Occupied → Type 0 where
  start : Reach n ids init
  later : {s : Occupied} (t : ℕ) → t < n → Reach n ids s → Reach n ids (step ids t s)
