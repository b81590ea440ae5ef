-- ===== src/Sync/Peterson/Starvation/Entry.antt =====
-- A waiting thread that makes accesses enters.
use paracore.Base.{
  ℕ, ◌≤◌, ◌<◌, ◌≡◌, ◌≢◌, ◌⊎◌, inl, inr, refl, sym, subst, ◌∙◌, List, [], ◌∷◌, true, ◌==◌,
  Bool-cases, ==→eq, ==→ne, Among, arith,
}
use paracore.Core.Thread.{ThreadIds}
use paracore.Sync.Peterson.{Slot, other, owner, Pc}
use paracore.Sync.Peterson.System.{System, step, Reach, later}
use paracore.Sync.Peterson.Invariant.{Holds, Waits}
use paracore.Sync.Peterson.Waiting.{
  run, Waiting, step-Waiting, step-place, step_alive, run_alive, own_first, own_second,
}
use paracore.Sync.Peterson.Bypass.{KeepsWaiting}
use paracore.Sync.Peterson.Bypass.Once.{KeepsWaiting-Waits}
use paracore.Sync.Peterson.Starvation.{turns_of, rank}
use paracore.Sync.Peterson.Starvation.Rank.{turns-rank}

Holds-not-Waits : (p : Pc) (i : Slot) → Holds p → ¬ Waits p i
Holds-not-Waits Pc.outside i h w = w
Holds-not-Waits p i h w = ground arith

rank-le : (p : Pc) → rank p ≤ 14
rank-le Pc.outside = ground arith
rank-le p = ground arith

module _ {n : ℕ} {ids : ℕ → ℕ} (known : ThreadIds n ids) (u : ℕ) (hu : u < n) (i : Slot) where
  -- At the load of `victim_`, and not the victim, it cannot make an access and wait on.
  none_left :
      (ts : List ℕ) (s : System)
      → Waiting n ids u i s
      → s.pc u ≡ Pc.see_victim i
      → Among n ts
      → KeepsWaiting ids u i ts s
      → (run ids ts s).alive ≡ true
      → turns_of u ts ≡ 0
  unfolding run KeepsWaiting
  none_left [] s w looks all keeps up = refl
  none_left (t ∷ ts) s w looks all keeps up =
      let next : Waits ((step ids t s).pc u) i =
        KeepsWaiting-Waits ids u i ts (step ids t s) keeps.1 in
      let lives : s.alive ≡ true = step_alive ids t s (run_alive ids ts (step ids t s) up) in
      elim (Bool-cases (t == u)) [
        | inl own ↦ absurd (
            Holds-not-Waits ((step ids u s).pc u) i
              (own_second ids u i s lives (inr (looks, w.not_victim)))
              (subst (λ k. Waits ((step ids k s).pc u) i) (==→eq t u own) next))
        | inr apart ↦ rw apart (
            omega (
              arith,
              none_left ts (step ids t s) (step-Waiting s known hu t all.0 (==→ne t u apart) w)
                  (step-place ids u s t (==→ne t u apart) ∙ looks) all.1 keeps.1 up,
            ))
      ]

  -- When it is not the victim, it makes at most one access and waits on.
  one_left :
      (ts : List ℕ) (s : System)
      → Waiting n ids u i s
      → Among n ts
      → KeepsWaiting ids u i ts s
      → (run ids ts s).alive ≡ true
      → turns_of u ts ≤ 1
  unfolding run KeepsWaiting
  one_left [] s w all keeps up = omega arith
  one_left (t ∷ ts) s w all keeps up =
      let next : Waits ((step ids t s).pc u) i =
        KeepsWaiting-Waits ids u i ts (step ids t s) keeps.1 in
      let lives : s.alive ≡ true = step_alive ids t s (run_alive ids ts (step ids t s) up) in
      elim (Bool-cases (t == u)) [
        | inl own ↦
            let first : ((step ids t s).pc u ≡ Pc.inside)
                ⊎ (((step ids t s).pc u ≡ Pc.see_victim i) × Waiting n ids u i (step ids t s)) =
              subst
                (λ k.
                  ((step ids k s).pc u ≡ Pc.inside)
                  ⊎ (((step ids k s).pc u ≡ Pc.see_victim i) × Waiting n ids u i (step ids k s)))
                (sym (==→eq t u own)) (own_first s hu lives w) in
            elim first [
              | inl entered ↦
                  absurd
                    (Holds-not-Waits ((step ids t s).pc u) i (subst Holds (sym entered) tt) next)
              | inr (looks, w') ↦
                  rw own (omega (arith, none_left ts (step ids t s) w' looks all.1 keeps.1 up))
            ]
        | inr apart ↦ rw apart (
            omega (
              arith,
              one_left ts (step ids t s) (step-Waiting s known hu t all.0 (==→ne t u apart) w) all.1
                  keeps.1 up,
            ))
      ]

pub run-Reach :
    {n : ℕ} {ids : ℕ → ℕ} (ts : List ℕ) (s : System)
    → Among n ts
    → Reach n ids s
    → Reach n ids (run ids ts s)
unfolding run
run-Reach [] s all r = r
run-Reach {ids} (t ∷ ts) s all r = run-Reach ts (step ids t s) all.1 (later t all.0 r)

-- No starvation: from a reachable state, if a thread `u` waits in its slot all through a schedule
-- in which another thread, which owns the other slot, makes 15 accesses, then `u` does not wait all
-- through a further schedule in which it makes two accesses itself, whatever other threads do in
-- both, if no thread has aborted the process by then. The ids are not 0 and differ.
pub starvation_free :
    {n : ℕ} {ids : ℕ → ℕ} (s : System)
    → ThreadIds n ids
    → Reach n ids s
    → (u v : ℕ) → u < n
    → v < n
    → v ≢ u
    → (i : Slot) → s.mem (owner (other i)) ≡ ids v
    → (ts us : List ℕ) → Among n ts
    → Among n us
    → 15 ≤ turns_of v ts
    → 2 ≤ turns_of u us
    → (run ids us (run ids ts s)).alive ≡ true
    → KeepsWaiting ids u i ts s
    → ¬ KeepsWaiting ids u i us (run ids ts s)
starvation_free {n} {ids} s known r u v hu hv apart i mine ts us all all' often twice up keeps
      keeps' =
    let mid : System = run ids ts s in
    elim (turns-rank known u hu i v hv apart ts s r all keeps mine (run_alive ids us mid up)) [
      | inl gone ↦
          let w : Waiting n ids u i mid = record {
            reach = run-Reach ts s all r;
            waits = KeepsWaiting-Waits ids u i us mid keeps';
            not_victim = gone;
          } in
          omega (arith, one_left known u hu i us mid w all' keeps' up)
      | inr most ↦ omega (arith, rank-le (s.pc v), most)
    ]
