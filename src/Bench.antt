-- ===== src/Bench.antt =====
-- bench/bench.hpp and src/bench/bench.cpp: the clock, which works, and the sweep over thread counts,
-- which answers `Status::NotBuilt`. A `double` is a type of its own; its literals are arguments.
pub mod Clock
use paracore.Base.{ℕ, ◌+◌, ◌*◌, ◌%◌, ◌^◌, String, Bool, false, List}
use paracore.Core.Status.{Status, Result, fail}
use paracore.Core.Mutex.CondVar.{Timespec}

-- `now_ns()`, where `clock_gettime` fills in `ts`.
unfoldable pub now_ns : Timespec → ℕ
now_ns ts = (ts.tv_sec * 1000000000 % 2 ^ 64 + ts.tv_nsec) % 2 ^ 64

pub record Config (Double : Type 0) : Type 0 where
  pub name : String
  pub min_threads : ℕ
  pub max_threads : ℕ
  pub warmup_rounds : ℕ
  pub min_rounds : ℕ
  pub max_rounds : ℕ
  pub target_cv : Double
  pub pin_threads : Bool

pub record Measurement (Double : Type 0) : Type 0 where
  pub threads : ℕ
  pub rounds : ℕ
  pub median_ns : Double
  pub p99_ns : Double
  pub cv : Double
  pub ops_per_sec : Double
  pub speedup : Double
  pub efficiency : Double

module _ {Double : Type 0} where
  -- The initialisers of the members; `two_percent` is `0.02`.
  abbrev pub new_config : (name : String) → (two_percent : Double) → Config Double
  new_config name two_percent = record {
    name = name;
    min_threads = 1;
    max_threads = 1;
    warmup_rounds = 1;
    min_rounds = 5;
    max_rounds = 200;
    target_cv = two_percent;
    pin_threads = false;
  }

  -- `write_header`, and the stream after it.
  abbrev pub write_header : {Stream : Type 0} → Stream → Config Double → Status × Stream
  write_header out cfg = (Status.not_built, out)

  -- `run`, with the workload and the stream for the rows.
  abbrev pub run_sweep :
      {Workload Stream : Type 0}
      → Config Double
      → Workload
      → Stream
      → Result (List (Measurement Double)) × Stream
  unfolding fail
  run_sweep cfg work csv = (fail Status.not_built, csv)
