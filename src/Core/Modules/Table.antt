-- ===== src/Core/Modules/Table.antt =====
-- The table of the build plan: a row for each module, and what the two queries read from it.
use paracore.Base.{ℕ, zero, suc, ◌<◌, ◌≡◌, ◌≢◌, ◌↔◌, true, Option, none, some, List, [], ◌∷◌, arith}
use paracore.Core.Modules.{Module, number, Row, modules, find, is_built}

-- The `k`th row of the table, from 0.
abbrev pub row_at : List Row → ℕ → Option Row
row_at [] k = none
row_at (r ∷ rs) zero = some r
row_at (r ∷ rs) (suc k) = row_at rs k

-- The numbering of the build plan is one to one: `find` gives the row that stands in the table at
-- the module's own number, and gives a row exactly for the numbers below 12.
pub find-row_at :
    (m : Module) → (find m ≡ row_at modules (number m)) × ((find m ≢ none) ↔ (number m < 12))
unfolding find
find-row_at Module.repo = ground arith
find-row_at m = ground arith

-- `is_built` holds exactly for the modules with the numbers 0 and 1, the repository itself and the
-- memory model, and for no cast of another int.
pub is_built_iff : (m : Module) → (is_built m ≡ true) ↔ (number m < 2)
unfolding is_built
is_built_iff Module.repo = ground arith
is_built_iff m = ground arith
