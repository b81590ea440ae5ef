-- ===== src/Sync/Peterson/Buffered/Reorder.antt =====
-- The `release` stores of src/sync/peterson_lock.cpp on the machine with store buffers: two
-- threads that call `lock` one after the other while no buffered store reaches memory.
use paracore.Base.{ℕ, ◌<◌, ◌≡◌, ◌≢◌, refl, [], ◌∷◌, sym, ap, ==_ne, ◌∙◌}
use paracore.Core.Thread.{ThreadIds}
use paracore.Sync.Memory.{Order, write}
use paracore.Sync.Memory.Buffer.{Pending}
use paracore.Sync.Peterson.{
  first, second, index, Slot, flag, victim, owner, Members, lock_cells, new, Pc, Orders, everywhere,
}
use paracore.Sync.Peterson.Buffered.{Buffered, turn_buffered, init, Reach, start}
use paracore.Sync.Peterson.Buffered.Alone.{
  run, run-Reach, Local, solo, Lives, At, run-At, run-other,
}

-- What thread `i` has asked for and not yet shown.
abbrev asked : Slot → Pending lock_cells
asked i = (flag i, 1) ∷ (victim, index i) ∷ []

-- The orderings of the code.
abbrev code : Orders
code = everywhere Order.release

-- The first thread of a new lock takes slot 0 and enters.
first_enters :
    (a : ℕ)
    → solo code a 5 ([], new, Pc.outside)
      ≡ (asked first, write lock_cells new (owner first) a, Pc.inside)
unfolding turn_buffered
first_enters a = refl

first-Lives : (a : ℕ) → Lives code a 5 ([], new, Pc.outside)
unfolding turn_buffered
first-Lives a = (refl, (refl, (refl, (refl, (refl, tt)))))

-- The second takes slot 1 and enters, while the memory shows neither flag.
second_enters :
    (a b : ℕ)
    → a ≢ 0
    → a ≢ b
    → let m = write lock_cells new (owner first) a in
      (solo code b 7 ([], m, Pc.outside)
        ≡ (asked second, write lock_cells m (owner second) b, Pc.inside))
      × Lives code b 7 ([], m, Pc.outside)
unfolding turn_buffered
second_enters a b named differ =
    rw (==_ne a 0 named, ==_ne a b differ)
      (refl, (refl, (refl, (refl, (refl, (refl, (refl, (refl, tt))))))))

-- With the `release` stores of the code the lock does not exclude on a machine with store buffers:
-- whichever two different threads share a new lock, with ids that are not 0 and differ, there is an
-- execution after which both are inside.
pub release_breaks_exclusion :
    {n : ℕ} {ids : ℕ → ℕ}
    → ThreadIds n ids
    → (t u : ℕ) → t < n
    → u < n
    → t ≢ u
    → (s : Buffered) × Reach (everywhere Order.release) n ids s
      × (s.pc t ≡ Pc.inside)
      × (s.pc u ≡ Pc.inside)
release_breaks_exclusion {n} {ids} known t u ht hu ne = (
  run code ids u 7 one,
  run-Reach code u 7 hu (run-Reach code t 5 ht start),
  (run-other code ids u t 7 one (λ e. ne (sym e))).0
      ∙ ap (λ (l : Local). l.2) (entered.here ∙ first_enters (ids t)),
  ap (λ (l : Local). l.2) (both.here ∙ second.0),
)
  where
    one : Buffered
    one = run code ids t 5 init

    entered : At code one t (solo code (ids t) 5 ([], new, Pc.outside))
    entered =
        run-At code ids t 5 init ([], new, Pc.outside) (record { alive = refl; here = refl })
          (first-Lives (ids t))

    m : Members
    m = write lock_cells new (owner first) (ids t)

    second :
        (solo code (ids u) 7 ([], m, Pc.outside)
          ≡ (asked Slot.second, write lock_cells m (owner Slot.second) (ids u), Pc.inside))
        × Lives code (ids u) 7 ([], m, Pc.outside)
    second = second_enters (ids t) (ids u) (known.named t ht) (λ e. ne (known.distinct t u ht hu e))

    memory : one.mem ≡ m
    memory = ap (λ (l : Local). l.1) (entered.here ∙ first_enters (ids t))

    waiting : At code one u ([], m, Pc.outside)
    waiting = record {
      alive = entered.alive;
      here = λ i. (
        (run-other code ids t u 5 init ne).1 i,
        memory i,
        (run-other code ids t u 5 init ne).0 i,
      );
    }

    both : At code (run code ids u 7 one) u (solo code (ids u) 7 ([], m, Pc.outside))
    both = run-At code ids u 7 one ([], m, Pc.outside) waiting second.1
