-- ===== src/Sync/Peterson/Guarded.antt =====
-- A counter behind a PetersonLock, as in the worker of tests/test_peterson.cpp: `lock_guard`
-- around a plain `++counter`, which loads the counter and then stores it.
pub mod Counts
use paracore.Base.{ℕ, ◌+◌, ◌%◌, ◌^◌, ◌<◌, update, if◌then◌else◌}
use paracore.Sync.Peterson.{Pc}
use paracore.Sync.Peterson.System
use paracore.Sync.Peterson.System.{System}

-- Where a thread stands between `lock()` and `unlock()`.
pub data Section : Type 0 where
  before : Section
  loaded : ℕ → Section  -- with what it has loaded
  after : Section

-- The lock and its threads, the counter, and how many increments have been made in all.
pub record Guarded : Type 0 where
  pub lock : System
  pub counter : ℕ  -- long
  pub section : ℕ → Section
  pub made : ℕ

-- What a thread does next: a step of the lock's code, or an access to the counter.
pub data Next : Type 0 where
  lock_code load : Next
  store : ℕ → Next

abbrev pub next : Pc → Section → Next
next Pc.inside Section.before = Next.load
next Pc.inside (Section.loaded v) = Next.store v
next p w = Next.lock_code

unfoldable pub make : (ids : ℕ → ℕ) (t : ℕ) → Next → Guarded → Guarded
make ids t Next.load s = record s { section = update s.section t (Section.loaded s.counter) }
make ids t (Next.store v) s = record s {
  counter = (v + 1) % 2 ^ 64;
  section = update s.section t Section.after;
  made = s.made + 1;
}
make ids t Next.lock_code s = record s {
  lock = System.step ids t s.lock;
  section = update s.section t Section.before;
}

-- The next access of thread `t`, if the process has not been aborted.
unfoldable pub step : (ids : ℕ → ℕ) (t : ℕ) → Guarded → Guarded
unfolding make
step ids t s = if s.lock.alive then make ids t (next (s.lock.pc t) (s.section t)) s else s

abbrev pub init : Guarded
init = record { lock = System.init; counter = 0; section = λ _. Section.before; made = 0 }

pub data Reach (n : ℕ) (ids : ℕ → ℕ) : Guarded → Type 0 where
  start : Reach n ids init
  later : {s : Guarded} (t : ℕ) → t < n → Reach n ids s → Reach n ids (step ids t s)
