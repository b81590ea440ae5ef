-- ===== src/Playground/Adders.antt =====
-- The measuring programs of playground/: counter.cpp, falsesharing.cpp and
-- bench_false_sharing.cpp. Each starts `n` threads that add 1 to a slot, so many times each, by
-- `fetch_add`, and joins them. Slots have a fixed width, and wrap around.
pub mod Sums
pub mod Racing
use paracore.Base.{
  ℕ, ◌+◌, ◌-◌, ◌*◌, ◌%◌, ◌^◌, Option, none, some, List, [], ◌∷◌, Bool, ◌==◌, ltb, if◌then◌else◌,
  update,
}

-- The slots, and how many rounds of its loop each thread has left.
pub record Adders : Type 0 where
  pub slot : ℕ → ℕ
  pub left : ℕ → ℕ

-- One round of the loop of thread `t`, whose slot is `slot_of t`. A thread that is done makes none.
unfoldable pub round : (size : ℕ) (slot_of : ℕ → ℕ) → ℕ → Adders → Adders
round size slot_of t s = if s.left t == 0 then s else record {
  slot = update s.slot (slot_of t) ((s.slot (slot_of t) + 1) % size);
  left = update s.left t (s.left t - 1);
}

-- Rounds of these threads, in this order.
unfoldable pub rounds : (size : ℕ) (slot_of : ℕ → ℕ) → List ℕ → Adders → Adders
rounds size slot_of [] s = s
rounds size slot_of (t ∷ ts) s = rounds size slot_of ts (round size slot_of t s)

-- `long` and `int`, by their bit patterns.
abbrev pub long_size : ℕ
long_size = 2 ^ 64

abbrev pub int_size : ℕ
int_size = 2 ^ 32

-- counter.cpp, with PARA_SYNCED: all threads share `synced`.
abbrev pub k_iters : ℕ
k_iters = 200000

abbrev pub shared_slot : ℕ → ℕ
shared_slot t = 0

abbrev pub start : ℕ → Adders
start iters = record { slot = λ _. 0; left = λ _. iters }

-- `n` in `main` of counter.cpp: `parsed` is what `std::from_chars` read, if it read a number.
unfoldable pub thread_count : (hardware : ℕ) (parsed : Option ℕ) → ℕ
thread_count hardware none = hardware
thread_count hardware (some n) = if ltb 0 n then n else hardware

-- Whether it prints "correct".
unfoldable pub correct : (n got : ℕ) → Bool
correct n got = got == n * k_iters

-- falsesharing.cpp: thread `i` has the slot `i`, in `packed` and then in `spread`.
abbrev pub max_threads : ℕ
max_threads = 64

abbrev pub own_slot : ℕ → ℕ
own_slot i = i

abbrev pub sharing_iters : ℕ
sharing_iters = 2000000

-- `n` in its `main`, which has at most as many threads as slots.
unfoldable pub slot_count : (hardware : ℕ) (parsed : Option ℕ) → ℕ
unfolding thread_count
slot_count hardware parsed =
    let n : ℕ = thread_count hardware parsed in if ltb max_threads n then max_threads else n

-- `iterations` in `main` of bench_false_sharing.cpp.
abbrev pub bench_iterations : ℕ
bench_iterations = 10000000

-- A round of its workers, in either array: the slot is the element of the thread's number.
abbrev pub worker_dense : (id : ℕ) → Adders → Adders
worker_dense id = round int_size own_slot id

abbrev pub worker_aligned : (id : ℕ) → Adders → Adders
worker_aligned id = round int_size own_slot id

-- The other branch of counter.cpp: `unsynced++` loads and stores. The threads, and what each has
-- loaded and not yet stored.
pub record Racers : Type 0 where
  pub unsynced : ℕ
  pub loaded : ℕ → Option ℕ
  pub left : ℕ → ℕ

-- One access of thread `t`.
unfoldable pub race : ℕ → Racers → Racers
race t s = if s.left t == 0 then s else elim (s.loaded t) [
  | none ↦ record s { loaded = update s.loaded t (some s.unsynced) }
  | some v ↦ record {
    unsynced = (v + 1) % long_size;
    loaded = update s.loaded t none;
    left = update s.left t (s.left t - 1);
  }
]

unfoldable pub races : List ℕ → Racers → Racers
races [] s = s
races (t ∷ ts) s = races ts (race t s)

abbrev pub race_start : ℕ → Racers
race_start iters = record { unsynced = 0; loaded = λ _. none; left = λ _. iters }
