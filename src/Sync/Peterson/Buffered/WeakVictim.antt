-- ===== src/Sync/Peterson/Buffered/WeakVictim.antt =====
-- PetersonLock with `seq_cst` stores of its flags and `release` stores of `victim_`, on the machine with
-- store buffers: one thread enters before the other sees who is to wait.
use paracore.Base.{ℕ, ◌<◌, ◌≡◌, ◌≢◌, refl, [], ◌∷◌, sym, ap, subst, ◌∙◌, ==_ne}
use paracore.Core.Thread.{ThreadIds}
use paracore.Sync.Memory.{Order, write}
use paracore.Sync.Memory.Buffer.{Pending}
use paracore.Sync.Peterson.{
  first, second, flag, victim, owner, Members, lock_cells, new, Pc, Orders,
}
use paracore.Sync.Peterson.System.{is_alive}
use paracore.Sync.Peterson.Buffered.{
  Buffered, turn_buffered, step, release_store, init, Reach, start, later, flushed,
}
use paracore.Sync.Peterson.Buffered.Alone.{
  run, run-Reach, Local, next, solo, Lives, At, step-At, run-At, step-other, run-other, release-At,
  release-other,
}

-- Only the flags are `seq_cst`.
abbrev pub strong_flags : Orders
strong_flags = record { of_flag = Order.seq_cst; of_victim = Order.release }

-- The memory once thread `a` has raised its flag, and once thread `b` has too.
abbrev one_up : ℕ → Members
one_up a = write lock_cells (write lock_cells new (owner first) a) (flag first) 1

abbrev both_up : ℕ → ℕ → Members
both_up a b = write lock_cells (write lock_cells (one_up a) (owner second) b) (flag second) 1

abbrev asked : ℕ → Pending lock_cells
asked i = (victim, i) ∷ []

-- The first thread enters, and its store of `victim_` is still to come.
first_enters :
    (a : ℕ) → solo strong_flags a 5 ([], new, Pc.outside) ≡ (asked 0, one_up a, Pc.inside)
unfolding turn_buffered
first_enters a = refl

first-Lives : (a : ℕ) → Lives strong_flags a 5 ([], new, Pc.outside)
unfolding turn_buffered
first-Lives a = (refl, (refl, (refl, (refl, (refl, tt)))))

-- The second sees the flag of the first, and is to look at `victim_`.
second_waits :
    (a b : ℕ)
    → a ≢ 0
    → a ≢ b
    → (solo strong_flags b 7 ([], one_up a, Pc.outside)
        ≡ (asked 1, both_up a b, Pc.see_victim second))
      × Lives strong_flags b 7 ([], one_up a, Pc.outside)
unfolding turn_buffered
second_waits a b named differ =
    rw (==_ne a 0 named, ==_ne a b differ)
      (refl, (refl, (refl, (refl, (refl, (refl, (refl, (refl, tt))))))))

-- When the store of the second thread comes first and then that of the first, the second enters.
second_enters :
    (a b : ℕ)
    → next strong_flags b (
      [],
      write lock_cells (write lock_cells (both_up a b) victim 1) victim 0,
      Pc.see_victim second,
    )
      ≡ ([], write lock_cells (write lock_cells (both_up a b) victim 1) victim 0, Pc.inside)
unfolding turn_buffered
second_enters a b = refl

module _ {n : ℕ} {ids : ℕ → ℕ} (known : ThreadIds n ids) (t u : ℕ) (ht : t < n) (hu : u < n)
    (ne : t ≢ u) where
  apart : ids t ≢ ids u
  apart e = ne (known.distinct t u ht hu e)

  one : Buffered
  one = run strong_flags ids t 5 init

  two : Buffered
  two = run strong_flags ids u 7 one

  shown : Members
  shown = write lock_cells (both_up (ids t) (ids u)) victim 1

  last : Members
  last = write lock_cells shown victim 0

  -- Each thread in turn makes its accesses.
  entered : At strong_flags one t (asked 0, one_up (ids t), Pc.inside)
  unfolding one
  entered = subst (At strong_flags one t) (first_enters (ids t)) (
      run-At strong_flags ids t 5 init ([], new, Pc.outside) (record { alive = refl; here = refl })
        (first-Lives (ids t)))

  waiting : At strong_flags one u ([], one_up (ids t), Pc.outside)
  unfolding one
  waiting = record {
    alive = entered.alive;
    here = λ i. (
      (run-other strong_flags ids t u 5 init ne).1 i,
      ap (λ (l : Local). l.1) entered.here i,
      (run-other strong_flags ids t u 5 init ne).0 i,
    );
  }

  second_there : At strong_flags two u (asked 1, both_up (ids t) (ids u), Pc.see_victim second)
  unfolding two
  second_there =
      let (ends, lives) = second_waits (ids t) (ids u) (known.named t ht) apart in
      subst (At strong_flags two u) ends
        (run-At strong_flags ids u 7 one ([], one_up (ids t), Pc.outside) waiting lives)

  first_there : At strong_flags two t (asked 0, both_up (ids t) (ids u), Pc.inside)
  unfolding two
  first_there =
      let (place, buffer) = run-other strong_flags ids u t 7 one (λ e. ne (sym e)) in
      record {
        alive = second_there.alive;
        here = λ i. (
          (buffer ∙ ap (λ (l : Local). l.0) entered.here) i,
          ap (λ (l : Local). l.1) second_there.here i,
          (place ∙ ap (λ (l : Local). l.2) entered.here) i,
        );
      }

  -- Then their stores of `victim_` come, that of the second thread first.
  first_overtaken : At strong_flags (release_store u two) t (asked 0, shown, Pc.inside)
  unfolding shown
  first_overtaken =
      release-other strong_flags two u t (asked 1) (asked 0) (both_up (ids t) (ids u)) Pc.inside
        (λ e. ne (sym e)) (ap (λ (l : Local). l.0) second_there.here) first_there

  second_shown : At strong_flags (release_store u two) u ([], shown, Pc.see_victim second)
  unfolding shown
  second_shown =
      release-At strong_flags two u (asked 1) (both_up (ids t) (ids u)) (Pc.see_victim second)
        second_there

  four : Buffered
  four = release_store t (release_store u two)

  first_stays : At strong_flags four t ([], last, Pc.inside)
  unfolding four last
  first_stays =
      release-At strong_flags (release_store u two) t (asked 0) shown Pc.inside first_overtaken

  second_free : At strong_flags four u ([], last, Pc.see_victim second)
  unfolding four last
  second_free =
      release-other strong_flags (release_store u two) t u (asked 0) [] shown (Pc.see_victim second)
        ne (ap (λ (l : Local). l.0) first_overtaken.here) second_shown

  four-Reach : Reach strong_flags n ids four
  unfolding four two one
  four-Reach =
      flushed t ht
        (flushed u hu (run-Reach strong_flags u 7 hu (run-Reach strong_flags t 5 ht start)))

  -- With `seq_cst` stores of the flags alone the lock does not exclude.
  pub strong_flags_break :
      (s : Buffered) × Reach strong_flags n ids s × (s.pc t ≡ Pc.inside) × (s.pc u ≡ Pc.inside)
  unfolding last shown
  strong_flags_break = (
    step strong_flags ids u four,
    later u hu four-Reach,
    (step-other strong_flags ids u t four (λ e. ne (sym e))).0
        ∙ ap (λ (l : Local). l.2) first_stays.here,
    ap (λ (l : Local). l.2)
          (step-At strong_flags ids four u ([], last, Pc.see_victim second) second_free
            (ap (λ (l : Local). is_alive l.2) (second_enters (ids t) (ids u)))).here
        ∙ ap (λ (l : Local). l.2) (second_enters (ids t) (ids u)),
  )
