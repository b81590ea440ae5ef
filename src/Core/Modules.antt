-- ===== src/Core/Modules.antt =====
-- `enum class Module` of core/status.hpp and src/core/modules.cpp: the build plan.
pub mod Table
use paracore.Base.{
  ℕ, suc, String, Bool, true, false, Option, none, some, List, [], ◌∷◌, ◌==◌, if◌then◌else◌,
}
use paracore.Core.Outcome.{Message, Outcome}

-- `unnamed` is a value of the underlying int that no enumerator has, made by a cast.
pub data Module : Type 0 where
  repo memory_model mutual_exclusion spinlocks monitors bench_rig sets queues_stacks : Module
  reclamation hash_maps skip_lists scheduler : Module
  unnamed : ℕ → Module

-- The enumerators' values. The numbers from 12 on stand for the ints that no enumerator has.
abbrev pub number : Module → ℕ
number Module.repo = 0
number Module.memory_model = 1
number Module.mutual_exclusion = 2
number Module.spinlocks = 3
number Module.monitors = 4
number Module.bench_rig = 5
number Module.sets = 6
number Module.queues_stacks = 7
number Module.reclamation = 8
number Module.hash_maps = 9
number Module.skip_lists = 10
number Module.scheduler = 11
number (Module.unnamed k) = suc (suc (suc (suc (suc (suc (suc (suc (suc (suc (suc (suc k)))))))))))

pub record Row : Type 0 where
  pub m : Module
  pub built : Bool
  pub name : String

abbrev row : Module → Bool → String → Row
row m built name = record { m = m; built = built; name = name }

-- `kModules`
abbrev pub modules : List Row
modules =
    row Module.repo true "0  the repo as a proof machine (prerequisite)"
    ∷ row Module.memory_model true "1  the memory model, measured and not believed"
    ∷ row Module.mutual_exclusion false "2  mutual exclusion, built from atomics"
    ∷ row Module.spinlocks false "3  spinlocks, contention and the cache"
    ∷ row Module.monitors false "4  monitors, fairness and the thread pool"
    ∷ row Module.bench_rig false "5  the bench rig: measuring so the number means something"
    ∷ row Module.sets false "6  sets: five synchronisation strategies on one data structure"
    ∷ row Module.queues_stacks false "7  queues, stacks and elimination"
    ∷ row Module.reclamation false "8  memory reclamation: ABA, hazard pointers and epochs"
    ∷ row Module.hash_maps false "9  hash tables: from one lock to split-ordering"
    ∷ row Module.skip_lists false "10 skip lists, priority queues and barriers"
    ∷ row Module.scheduler false "11 the final exam: a work-stealing scheduler"
    ∷ []

-- The loop of `find`.
unfoldable pub find_in : List Row → Module → Option Row
find_in [] m = none
find_in (r ∷ rs) m = if number r.m == number m then some r else find_in rs m

unfoldable pub find : Module → Option Row
unfolding find_in
find = find_in modules

unfoldable pub is_built : Module → Bool
unfolding find
is_built m = elim (find m) [ none ↦ false | some r ↦ r.built ]

unfoldable pub module_name : Module → String
unfolding find
module_name m = elim (find m) [ none ↦ "unknown module" | some r ↦ r.name ]

-- Every stub whose signature cannot carry `Status::NotBuilt` ends here.
unfoldable pub not_built {ℓ} : {A : Type ℓ} → Module → String → Outcome A
unfolding module_name
not_built m what = Outcome.aborts (Message.unbuilt what (module_name m))
