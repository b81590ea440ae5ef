-- ===== src/Sync/Spinlock/Unbuilt.antt =====
-- A client of the spinlocks, the filter lock and the bakery lock.
use paracore.Base.{◌≡◌, refl, false, List, ◌∷◌, String}
use Prim.Native.String.{◌++◌}
use paracore.Core.Outcome.{Message, Outcome}
use paracore.Core.Modules.{Module, not_built, is_built, module_name}
use paracore.Sync.Lockable.{Call, run}
use paracore.Sync.Spinlock.{
  TasLock, TtasLock, BackoffLock, ArrayLock, ClhLock, McsLock, tas_lock, ttas_lock, backoff_lock,
  array_lock, clh_lock, mcs_lock,
}
use paracore.Sync.MutualExclusion.{FilterLock, BakeryLock, filter_lock, bakery_lock}

-- The text that names an operation of a class.
abbrev pub operation : Call → String → String
operation Call.lock c = c ++ "::lock"
operation Call.try_lock c = c ++ "::try_lock"
operation Call.unlock c = c ++ "::unlock"

-- The abort of an operation of class `c`, which module `m` is to build.
abbrev pub unbuilt {ℓ} : {A : Type ℓ} → Module → String → Call → Outcome A
unbuilt m c k = Outcome.aborts (Message.unbuilt (operation k c) (module_name m))

tas-aborts :
    (k : Call) (ks : List Call) (l : TasLock)
    → run tas_lock (k ∷ ks) l ≡ unbuilt Module.spinlocks "TasLock" k
unfolding run not_built
tas-aborts Call.lock ks l = refl
tas-aborts Call.try_lock ks l = refl
tas-aborts Call.unlock ks l = refl

ttas-aborts :
    (k : Call) (ks : List Call) (l : TtasLock)
    → run ttas_lock (k ∷ ks) l ≡ unbuilt Module.spinlocks "TtasLock" k
unfolding run not_built
ttas-aborts Call.lock ks l = refl
ttas-aborts Call.try_lock ks l = refl
ttas-aborts Call.unlock ks l = refl

backoff-aborts :
    (k : Call) (ks : List Call) (l : BackoffLock)
    → run backoff_lock (k ∷ ks) l ≡ unbuilt Module.spinlocks "BackoffLock" k
unfolding run not_built
backoff-aborts Call.lock ks l = refl
backoff-aborts Call.try_lock ks l = refl
backoff-aborts Call.unlock ks l = refl

array-aborts :
    (k : Call) (ks : List Call) (l : ArrayLock)
    → run array_lock (k ∷ ks) l ≡ unbuilt Module.spinlocks "ArrayLock" k
unfolding run not_built
array-aborts Call.lock ks l = refl
array-aborts Call.try_lock ks l = refl
array-aborts Call.unlock ks l = refl

clh-aborts :
    (k : Call) (ks : List Call) (l : ClhLock)
    → run clh_lock (k ∷ ks) l ≡ unbuilt Module.spinlocks "ClhLock" k
unfolding run not_built
clh-aborts Call.lock ks l = refl
clh-aborts Call.try_lock ks l = refl
clh-aborts Call.unlock ks l = refl

mcs-aborts :
    (k : Call) (ks : List Call) (l : McsLock)
    → run mcs_lock (k ∷ ks) l ≡ unbuilt Module.spinlocks "McsLock" k
unfolding run not_built
mcs-aborts Call.lock ks l = refl
mcs-aborts Call.try_lock ks l = refl
mcs-aborts Call.unlock ks l = refl

filter-aborts :
    (k : Call) (ks : List Call) (l : FilterLock)
    → run filter_lock (k ∷ ks) l ≡ unbuilt Module.mutual_exclusion "FilterLock" k
unfolding run not_built
filter-aborts Call.lock ks l = refl
filter-aborts Call.try_lock ks l = refl
filter-aborts Call.unlock ks l = refl

bakery-aborts :
    (k : Call) (ks : List Call) (l : BakeryLock)
    → run bakery_lock (k ∷ ks) l ≡ unbuilt Module.mutual_exclusion "BakeryLock" k
unfolding run not_built
bakery-aborts Call.lock ks l = refl
bakery-aborts Call.try_lock ks l = refl
bakery-aborts Call.unlock ks l = refl

-- Each of the six spinlocks, the filter lock and the bakery lock ends any non-empty sequence of
-- calls with the abort of the first call, whose text names the class, the operation and the module
-- of the build plan; and the plan has neither module as built.
locks_abort :
    (k : Call) (ks : List Call) (t : TasLock) (u : TtasLock) (b : BackoffLock)
    → (a : ArrayLock) (c : ClhLock) (m : McsLock) (f : FilterLock) (y : BakeryLock)
    → (run tas_lock (k ∷ ks) t ≡ unbuilt Module.spinlocks "TasLock" k)
      × (run ttas_lock (k ∷ ks) u ≡ unbuilt Module.spinlocks "TtasLock" k)
      × (run backoff_lock (k ∷ ks) b ≡ unbuilt Module.spinlocks "BackoffLock" k)
      × (run array_lock (k ∷ ks) a ≡ unbuilt Module.spinlocks "ArrayLock" k)
      × (run clh_lock (k ∷ ks) c ≡ unbuilt Module.spinlocks "ClhLock" k)
      × (run mcs_lock (k ∷ ks) m ≡ unbuilt Module.spinlocks "McsLock" k)
      × (run filter_lock (k ∷ ks) f ≡ unbuilt Module.mutual_exclusion "FilterLock" k)
      × (run bakery_lock (k ∷ ks) y ≡ unbuilt Module.mutual_exclusion "BakeryLock" k)
      × (is_built Module.spinlocks ≡ false)
      × (is_built Module.mutual_exclusion ≡ false)
unfolding is_built
locks_abort k ks t u b a c m f y = (
  tas-aborts k ks t,
  ttas-aborts k ks u,
  backoff-aborts k ks b,
  array-aborts k ks a,
  clh-aborts k ks c,
  mcs-aborts k ks m,
  filter-aborts k ks f,
  bakery-aborts k ks y,
  refl,
  refl,
)
