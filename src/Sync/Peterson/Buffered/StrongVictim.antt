-- ===== src/Sync/Peterson/Buffered/StrongVictim.antt =====
-- PetersonLock with `release` stores of its flags and `seq_cst` stores of `victim_` refines the
-- interleaving of its threads on one memory, seen with a delay.
use native.Mathlib.Decide.{ℕ_discrete}
use paracore.Base.{
  ℕ, ◌<◌, ◌≡◌, ◌≢◌, refl, true, sym, subst, ◌∙◌, update, update_self, update_ne, update_back, arith,
  inl, inr, Bool-cases,
}
use paracore.Core.Thread.{ThreadIds}
use paracore.Sync.Memory.Buffer.{Pending, flush}
use paracore.Sync.Peterson.{Members, lock_cells, Pc}
use paracore.Sync.Peterson.System
use paracore.Sync.Peterson.System.{System, turn, is_alive}
use paracore.Sync.Peterson.Invariant.{Holds}
use paracore.Sync.Peterson.Safety.{mutual_exclusion}
use paracore.Sync.Peterson.Buffered.{Buffered, step, release_store, Reach, start, later, flushed}
use paracore.Sync.Peterson.Buffered.Lag.{
  strong_victim, Lag, level, Lag-Holds, Lag-alive, Accesses, stays, moves, ends, Followed,
  turn-Followed, flush-Followed,
}

-- The interleaving machine makes the accesses, and the other threads stay where they are.
record Follows (n : ℕ) (ids : ℕ → ℕ) (t : ℕ) (v : System) (m : Members) (q : Pc) : Type 0 where
  there : System
  reach : System.Reach n ids there
  memory : there.mem ≡ m
  place : there.pc t ≡ q
  others : (u : ℕ) → t ≢ u → there.pc u ≡ v.pc u
  lives : is_alive q ≡ true → there.alive ≡ true

module _ {n : ℕ} {ids : ℕ → ℕ} (t : ℕ) (here : t < n) where
  follow :
      {m m' : Members} {q q' : Pc} (v : System)
      → Accesses (ids t) m q m' q'
      → System.Reach n ids v
      → v.mem ≡ m
      → v.pc t ≡ q
      → v.alive ≡ true
      → Follows n ids t v m' q'
  unfolding System.step
  follow v stays r e f up = record {
    there = v;
    reach = r;
    memory = e;
    place = f;
    others = λ u ne. refl;
    lives = λ a. up;
  }
  follow {m} {q = q} v ends r e f up = record {
    there = System.step ids t v;
    reach = System.later t here r;
    memory = rw (up, e, f) refl;
    place = rw (up, e, f) (update_self v.pc t _);
    others = λ u ne. rw (up, e, f) (update_ne v.pc t u _ ne);
    lives = λ a. rw (up, e, f) a;
  }
  follow {m' = m'} {q' = q'} v (moves a path) r e f up =
      let more : Follows n ids t (System.step ids t v) m' q' =
        follow (System.step ids t v) path (System.later t here r) (rw (up, e, f) refl)
          (rw (up, e, f) (update_self v.pc t _)) (rw (up, e, f) a) in
      record {
        there = more.there;
        reach = more.reach;
        memory = more.memory;
        place = more.place;
        others = λ u ne. more.others u ne ∙ rw (up, e, f) (update_ne v.pc t u _ ne);
        lives = more.lives;
      }

-- While the process lives, the buffered machine is behind the interleaving one.
record Behind (s : Buffered) (v : System) : Type 0 where
  alive : v.alive ≡ true
  memory : s.mem ≡ v.mem
  up : (t : ℕ) → is_alive (s.pc t) ≡ true
  lags : (t : ℕ) → Lag (s.pending t) (s.pc t) (v.pc t)

-- The interleaving machine reaches a state in which the same threads hold the lock.
record Sim (n : ℕ) (ids : ℕ → ℕ) (s : Buffered) : Type 0 where
  there : System
  reach : System.Reach n ids there
  holds : (t : ℕ) → Holds (s.pc t) → Holds (there.pc t)
  behind : s.alive ≡ true → Behind s there

module _ {n : ℕ} {ids : ℕ → ℕ} (t : ℕ) (here : t < n) where
  -- One thread of a live process has made a move.
  moved :
      (s : Buffered) (b' : Pending lock_cells) (m' : Members) (p' : Pc) (v : System)
      → System.Reach n ids v
      → Behind s v
      → Followed (ids t) s.mem (v.pc t) b' m' p'
      → (w : System) × System.Reach n ids w
        × (w.mem ≡ m')
        × ((u : ℕ) → Lag (update s.pending t b' u) (update s.pc t p' u) (w.pc u))
        × (is_alive p' ≡ true → w.alive ≡ true)
  moved s b' m' p' v r old more =
      let on : Follows n ids t v m' more.seen =
        follow t here v more.path r (sym old.memory) refl old.alive in
      (
        on.there,
        on.reach,
        on.memory,
        (λ u. elim (ℕ_discrete t u) [
          | Dec.yes e ↦
              subst (λ k. Lag (update s.pending t b' k) (update s.pc t p' k) (on.there.pc k)) e
                (rw (update_self s.pending t b', update_self s.pc t p', on.place) more.lag)
          | Dec.no ne ↦
              rw (update_ne s.pending t u b' ne, update_ne s.pc t u p' ne, on.others u ne)
                (old.lags u)
        ]),
        λ a. on.lives (Lag-alive more.lag a),
      )

stay_up :
    (pc : ℕ → Pc)
    → ((u : ℕ) → is_alive (pc u) ≡ true)
    → (t : ℕ) (p : Pc) → is_alive p ≡ true
    → (u : ℕ) → is_alive (update pc t p u) ≡ true
stay_up pc up t p a u = ground (arith, up u, a)

-- Every state of the buffered machine is one that interleaving has reached, seen with a delay.
strong_victim-Sim : {n : ℕ} {ids : ℕ → ℕ} {s : Buffered} → Reach strong_victim n ids s → Sim n ids s
unfolding step release_store
strong_victim-Sim start = record {
  there = System.init;
  reach = System.start;
  holds = λ t h. h;
  behind =
      λ up. record { alive = refl; memory = refl; up = λ t. refl; lags = λ t. level Pc.outside };
}
strong_victim-Sim {n} {ids} (later {s} t here r) =
    let old : Sim n ids s = strong_victim-Sim r in
    elim (Bool-cases s.alive) [
      | inl up ↦
          let now = old.behind up in
          let (w, r', e, lags, lives) =
            moved t here s _ _ _ old.there old.reach now
              (turn-Followed (ids t) s.mem (now.lags t)) in
          rw up (record {
            there = w;
            reach = r';
            holds = λ u. Lag-Holds (lags u);
            behind = λ a. record {
              alive = lives a;
              memory = sym e;
              up = stay_up s.pc now.up t _ a;
              lags = lags;
            };
          })
      | inr down ↦ rw down (rw down at old)
    ]
strong_victim-Sim {n} {ids} (flushed {s} t here r) =
    let old : Sim n ids s = strong_victim-Sim r in
    elim (Bool-cases s.alive) [
      | inl up ↦
          let now = old.behind up in
          let (w, r', e, lags, lives) =
            moved t here s _ _ (s.pc t) old.there old.reach now
              (flush-Followed (ids t) s.mem (now.lags t)) in
          let same_place = λ (u : ℕ).
            subst
              (λ k. Lag (update s.pending t (flush lock_cells (s.pending t) s.mem).0 u) k (w.pc u))
              (update_back s.pc t u) (lags u) in
          record {
            there = w;
            reach = r';
            holds = λ u. Lag-Holds (same_place u);
            behind = λ a. record {
              alive = lives (now.up t);
              memory = sym e;
              up = now.up;
              lags = same_place;
            };
          }
      | inr down ↦ record {
        there = old.there;
        reach = old.reach;
        holds = old.holds;
        behind = λ a. cc;
      }
    ]

-- With `seq_cst` stores of `victim_` the lock excludes on the machine with store buffers.
pub strong_victim_exclusion :
    {n : ℕ} {ids : ℕ → ℕ} {s : Buffered}
    → ThreadIds n ids
    → Reach strong_victim n ids s
    → (t u : ℕ) → t < n
    → u < n
    → Holds (s.pc t)
    → Holds (s.pc u)
    → t ≡ u
strong_victim_exclusion known r t u ht hu h k =
    let sim = strong_victim-Sim r in
    mutual_exclusion known sim.reach t u ht hu (sim.holds t h) (sim.holds u k)
