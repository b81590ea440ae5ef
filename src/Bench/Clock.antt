-- ===== src/Bench/Clock.antt =====
-- `now_ns` of src/bench/bench.cpp, read back.
use paracore.Base.{◌+◌, ◌*◌, ◌/◌, ◌%◌, ◌<◌, ◌≡◌, ◌↔◌, ◌⊎◌, arith}
use paracore.Core.Mutex.CondVar.{Timespec}
use paracore.Bench.{now_ns}

-- A reading of the clock within 18446744073 s, some 584 years, of its start.
abbrev pub Reading : Timespec → Type 0
Reading ts = (ts.tv_sec < 18446744073) × (ts.tv_nsec < 1000000000)

pub now_ns-Reading : (ts : Timespec) → Reading ts → now_ns ts ≡ ts.tv_sec * 1000000000 + ts.tv_nsec
unfolding now_ns
now_ns-Reading ts (s, n) = omega arith

-- A reading of the monotonic clock with less than a second of nanoseconds, within 18446744073
-- seconds of its start, is read back from `now_ns()`: the seconds by division and the nanoseconds
-- by remainder.
pub now_ns-split :
    (ts : Timespec)
    → Reading ts
    → (now_ns ts / 1000000000 ≡ ts.tv_sec) × (now_ns ts % 1000000000 ≡ ts.tv_nsec)
now_ns-split ts r = (omega (arith, now_ns-Reading ts r), omega (arith, now_ns-Reading ts r))

-- Two readings within 18446744073 seconds of the clock's start are in the order of what `now_ns()` makes
-- of them.
pub now_ns-order :
    (a b : Timespec)
    → Reading a
    → Reading b
    → (now_ns a < now_ns b)
      ↔ ((a.tv_sec < b.tv_sec) ⊎ ((a.tv_sec ≡ b.tv_sec) × (a.tv_nsec < b.tv_nsec)))
now_ns-order a b ra rb = (
  (λ h. ground (arith, now_ns-Reading a ra, now_ns-Reading b rb)),
  (λ h. ground (arith, now_ns-Reading a ra, now_ns-Reading b rb)),
)
