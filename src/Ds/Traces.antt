-- ===== src/Ds/Traces.antt =====
-- Sequences of calls on the structures of ds/.
use paracore.Base.{◌≡◌, refl, List}
use paracore.Core.Status.{Status, Result, fail}
use paracore.Ds.Client.{trace, answers}
use paracore.Ds.Container.{Call, call, unbuilt, trace-unbuilt}
use paracore.Ds.Stack.{
  LockedStack, TreiberStack, EliminationStack, locked_stack, treiber_stack, elimination_stack,
}
use paracore.Ds.Queue.{
  TwoLockQueue, MichaelScottQueue, SpscRing, BlockingQueue, two_lock_queue, michael_scott_queue,
  spsc_ring, blocking_queue, blocking_push, blocking_pop, close,
}
use paracore.Ds.Keyed.{
  SetCall, set_call, unbuilt_set, set_trace-unbuilt, MapCall, map_call, unbuilt_map,
  map_trace-unbuilt,
}
use paracore.Ds.Set.{coarse_set, fine_set, optimistic_set, lazy_set, lock_free_set}
use paracore.Ds.Set.{CoarseSet, FineSet, OptimisticSet, LazySet, LockFreeSet}
use paracore.Ds.SkipList.{LazySkipList, LockFreeSkipList, lazy_skip_list, lock_free_skip_list}
use paracore.Ds.Map.{global_map, striped_map, refinable_map, split_ordered_map}
use paracore.Ds.Map.{GlobalMap, StripedMap, RefinableMap, SplitOrderedMap}

-- Any sequence of calls on each of the three stacks gets `NotBuilt` from every push and pop and 0
-- from every `size_approx`, and leaves the members of the stack as they were.
stacks_answer_unbuilt :
    {A : Type 0} (ks : List (Call A))
    → (l : LockedStack) (t : TreiberStack) (e : EliminationStack)
    → (trace (call locked_stack) ks l ≡ (answers unbuilt ks, l))
      × (trace (call treiber_stack) ks t ≡ (answers unbuilt ks, t))
      × (trace (call elimination_stack) ks e ≡ (answers unbuilt ks, e))
unfolding fail
stacks_answer_unbuilt ks l t e = (
  trace-unbuilt locked_stack refl ks l,
  trace-unbuilt treiber_stack refl ks t,
  trace-unbuilt elimination_stack refl ks e,
)

-- Any sequence of calls of `push` or `try_push`, `try_pop` and `size_approx` on each of the four
-- queues gets `NotBuilt` from every push and pop and 0 from every `size_approx`, and leaves the
-- members of the queue as they were; the `push`, `pop` and `close` of the blocking queue answer
-- `NotBuilt` and change nothing.
queues_answer_unbuilt :
    {A : Type 0} (ks : List (Call A)) (a : A)
    → (t : TwoLockQueue) (m : MichaelScottQueue) (r : SpscRing A) (b : BlockingQueue)
    → (trace (call two_lock_queue) ks t ≡ (answers unbuilt ks, t))
      × (trace (call michael_scott_queue) ks m ≡ (answers unbuilt ks, m))
      × (trace (call spsc_ring) ks r ≡ (answers unbuilt ks, r))
      × (trace (call blocking_queue) ks b ≡ (answers unbuilt ks, b))
      × (blocking_push a b ≡ (Status.not_built, b))
      × (blocking_pop {A = A} b ≡ (Result.unexpected Status.not_built, b))
      × (close b ≡ (Status.not_built, b))
unfolding fail
queues_answer_unbuilt ks a t m r b = (
  trace-unbuilt two_lock_queue refl ks t,
  trace-unbuilt michael_scott_queue refl ks m,
  trace-unbuilt spsc_ring refl ks r,
  trace-unbuilt blocking_queue refl ks b,
  refl,
  refl,
  refl,
)

-- Any sequence of calls on each of the five sets gets `NotBuilt` from every `add` and `remove`,
-- `false` from every `contains` and 0 from every `size_approx`, and leaves the members of the set
-- as they were.
sets_answer_unbuilt :
    {A : Type 0} (ks : List (SetCall A A))
    → (c : CoarseSet) (f : FineSet) (o : OptimisticSet) (l : LazySet) (h : LockFreeSet)
    → (trace (set_call coarse_set) ks c ≡ (answers unbuilt_set ks, c))
      × (trace (set_call fine_set) ks f ≡ (answers unbuilt_set ks, f))
      × (trace (set_call optimistic_set) ks o ≡ (answers unbuilt_set ks, o))
      × (trace (set_call lazy_set) ks l ≡ (answers unbuilt_set ks, l))
      × (trace (set_call lock_free_set) ks h ≡ (answers unbuilt_set ks, h))
sets_answer_unbuilt ks c f o l h = (
  set_trace-unbuilt coarse_set refl ks c,
  set_trace-unbuilt fine_set refl ks f,
  set_trace-unbuilt optimistic_set refl ks o,
  set_trace-unbuilt lazy_set refl ks l,
  set_trace-unbuilt lock_free_set refl ks h,
)

-- Any sequence of calls on each of the four hash maps gets `NotBuilt` from every `put`, `get` and
-- `remove` and 0 from every `size_approx`, and leaves the members of the map as they were.
maps_answer_unbuilt :
    {K V : Type 0} (ks : List (MapCall K V))
    → (g : GlobalMap) (t : StripedMap) (r : RefinableMap) (o : SplitOrderedMap)
    → (trace (map_call global_map) ks g ≡ (answers unbuilt_map ks, g))
      × (trace (map_call striped_map) ks t ≡ (answers unbuilt_map ks, t))
      × (trace (map_call refinable_map) ks r ≡ (answers unbuilt_map ks, r))
      × (trace (map_call split_ordered_map) ks o ≡ (answers unbuilt_map ks, o))
unfolding fail
maps_answer_unbuilt ks g t r o = (
  map_trace-unbuilt global_map refl ks g,
  map_trace-unbuilt striped_map refl ks t,
  map_trace-unbuilt refinable_map refl ks r,
  map_trace-unbuilt split_ordered_map refl ks o,
)

-- Any sequence of calls on each of the three stacks, four queues, five sets, four hash maps and two
-- skip lists gets `NotBuilt` from every call that changes or hands out elements, `false` from every
-- `contains` and 0 from every `size_approx`, and leaves the members as they were; so do `push`,
-- `pop` and `close` of the blocking queue.
pub structures_answer_unbuilt :
    {A K V : Type 0} (ks : List (Call A)) (es : List (SetCall K K)) (ms : List (MapCall K V))
    → (vs : List (SetCall (K × V) K)) (a : A)
    → (l : LockedStack) (t : TreiberStack) (e : EliminationStack)
    → (q : TwoLockQueue) (m : MichaelScottQueue) (r : SpscRing A) (b : BlockingQueue)
    → (c : CoarseSet) (f : FineSet) (o : OptimisticSet) (z : LazySet) (h : LockFreeSet)
    → (g : GlobalMap) (s : StripedMap) (n : RefinableMap) (d : SplitOrderedMap)
    → (x : LazySkipList) (y : LockFreeSkipList)
    → ((trace (call locked_stack) ks l ≡ (answers unbuilt ks, l))
        × (trace (call treiber_stack) ks t ≡ (answers unbuilt ks, t))
        × (trace (call elimination_stack) ks e ≡ (answers unbuilt ks, e)))
      × ((trace (call two_lock_queue) ks q ≡ (answers unbuilt ks, q))
          × (trace (call michael_scott_queue) ks m ≡ (answers unbuilt ks, m))
          × (trace (call spsc_ring) ks r ≡ (answers unbuilt ks, r))
          × (trace (call blocking_queue) ks b ≡ (answers unbuilt ks, b))
          × (blocking_push a b ≡ (Status.not_built, b))
          × (blocking_pop {A = A} b ≡ (Result.unexpected Status.not_built, b))
          × (close b ≡ (Status.not_built, b)))
      × ((trace (set_call coarse_set) es c ≡ (answers unbuilt_set es, c))
          × (trace (set_call fine_set) es f ≡ (answers unbuilt_set es, f))
          × (trace (set_call optimistic_set) es o ≡ (answers unbuilt_set es, o))
          × (trace (set_call lazy_set) es z ≡ (answers unbuilt_set es, z))
          × (trace (set_call lock_free_set) es h ≡ (answers unbuilt_set es, h)))
      × ((trace (map_call global_map) ms g ≡ (answers unbuilt_map ms, g))
          × (trace (map_call striped_map) ms s ≡ (answers unbuilt_map ms, s))
          × (trace (map_call refinable_map) ms n ≡ (answers unbuilt_map ms, n))
          × (trace (map_call split_ordered_map) ms d ≡ (answers unbuilt_map ms, d)))
      × ((trace (set_call lazy_skip_list) vs x ≡ (answers unbuilt_set vs, x))
          × (trace (set_call lock_free_skip_list) vs y ≡ (answers unbuilt_set vs, y)))
structures_answer_unbuilt ks es ms vs a l t e q m r b c f o z h g s n d x y = (
  stacks_answer_unbuilt ks l t e,
  queues_answer_unbuilt ks a q m r b,
  sets_answer_unbuilt es c f o z h,
  maps_answer_unbuilt ms g s n d,
  (set_trace-unbuilt lazy_skip_list refl vs x, set_trace-unbuilt lock_free_skip_list refl vs y),
)
