-- ===== src/Playground/Litmus.antt =====
-- playground/litmus_sb.cpp and playground/litmus_sb_relaxed.cpp: store buffering. Each thread
-- stores 1 to its own variable and then loads the other's; the programs count the iterations in
-- which both load 0. Run on the machine with store buffers of Sync/Memory/Buffer.antt.
pub mod Orders
use paracore.Base.{ℕ, suc, ◌+◌, List, [], ◌∷◌, Bool, true, false, ◌&&◌, ◌==◌, if◌then◌else◌}
use paracore.Sync.Memory
use paracore.Sync.Memory.{Order, Access, Cells}
use paracore.Sync.Memory.Buffer.{Pending, perform_buffered, flush}

pub data Cell : Type 0 where
  x y : Cell

abbrev pub same_cell : Cell → Cell → Bool
same_cell Cell.x Cell.x = true
same_cell Cell.y Cell.y = true
same_cell _ _ = false

abbrev pub litmus_cells : Cells
litmus_cells = record { Cell = Cell; same = same_cell }

-- `t1` and `t2`
pub data Thread : Type 0 where
  t1 t2 : Thread

abbrev pub mine : Thread → Cell
mine Thread.t1 = Cell.x
mine Thread.t2 = Cell.y

abbrev pub theirs : Thread → Cell
theirs Thread.t1 = Cell.y
theirs Thread.t2 = Cell.x

pub data Place : Type 0 where
  before_store before_load : Place
  done : ℕ → Place  -- with the value that was loaded

-- One thread: its pending stores, and where its lambda stands.
pub record Local : Type 0 where
  pub pending : Pending litmus_cells
  pub place : Place

pub record State : Type 0 where
  pub mem : Memory.Memory litmus_cells
  pub first : Local
  pub second : Local

abbrev pub access : Order → Thread → Place → Access Cell
access o t Place.before_store = Access.store o (mine t) 1
access o t Place.before_load = Access.load (theirs t)
access o t (Place.done v) = Access.none

abbrev pub proceed : Place → ℕ → Place
proceed Place.before_store v = Place.before_load
proceed Place.before_load v = Place.done v
proceed (Place.done r) v = Place.done r

abbrev pub local : Thread → State → Local
local Thread.t1 s = s.first
local Thread.t2 s = s.second

abbrev pub put : Thread → Local → Memory.Memory litmus_cells → State → State
put Thread.t1 l m s = record { mem = m; first = l; second = s.second }
put Thread.t2 l m s = record { mem = m; first = s.first; second = l }

-- The thread's next access.
unfoldable pub step : Order → Thread → State → State
step o t s =
    let l = local t s in
    let (b, m, v) = perform_buffered litmus_cells (access o t l.place) l.pending s.mem in
    put t (record { pending = b; place = proceed l.place v }) m s

-- The thread's oldest pending store reaches memory.
unfoldable pub release_store : Thread → State → State
release_store t s =
    let l = local t s in
    let (b, m) = flush litmus_cells l.pending s.mem in
    put t (record { pending = b; place = l.place }) m s

-- An iteration begins with both variables 0 and new threads.
abbrev pub init : State
init = record {
  mem = λ _. 0;
  first = record { pending = []; place = Place.before_store };
  second = record { pending = []; place = Place.before_store };
}

pub data Reach (o : Order) : State → Type 0 where
  start : Reach o init
  later : {s : State} (t : Thread) → Reach o s → Reach o (step o t s)
  flushed : {s : State} (t : Thread) → Reach o s → Reach o (release_store t s)

-- After both joins: `r1` and `r2` of an iteration.
pub record Loaded : Type 0 where
  pub r1 : ℕ
  pub r2 : ℕ

-- The counting loop of `run_sb`, over what its iterations loaded.
unfoldable pub run_sb : List Loaded → ℕ
run_sb [] = 0
run_sb (l ∷ ls) = (if (l.r1 == 0) && (l.r2 == 0) then 1 else 0) + run_sb ls

-- `both_zero` in `main` of litmus_sb_relaxed.cpp, the same loop with relaxed stores and loads.
abbrev pub both_zero : List Loaded → ℕ
both_zero = run_sb
