-- ===== src/Sync/Peterson/Aborts.antt =====
-- When the threads that share a PetersonLock come to `std::abort()`.
use paracore.Base.{
  ℕ, ◌≤◌, ◌<◌, ◌≡◌, ◌≢◌, inl, inr, refl, sym, ap, ◌∙◌, true, false, Bool-cases, update_self, arith,
}
use paracore.Core.Thread.{ThreadIds}
use paracore.Sync.Peterson.{first, second, owner, Pc}
use paracore.Sync.Peterson.System.{System, turn, step, is_alive, Reach, start, later}
use paracore.Sync.Peterson.Safety.{abort_needs_third}
use paracore.Sync.Peterson.Progress.{Reach-Owned}

dead-aborted : (p : Pc) → is_alive p ≡ false → p ≡ Pc.aborted
dead-aborted Pc.outside e = cc
dead-aborted p e = ground arith

-- The process is dead when some thread has called `abort()`.
dead_thread :
    {n : ℕ} {ids : ℕ → ℕ} {s : System}
    → Reach n ids s
    → s.alive ≡ false
    → (t : ℕ) × (t < n) × (s.pc t ≡ Pc.aborted)
unfolding step
dead_thread start e = cc
dead_thread {ids = ids} (later {s} t here r) e = elim (Bool-cases s.alive) [
  | inl up ↦ (
    t,
    here,
    rw up (update_self s.pc t _ ∙ dead-aborted (turn (ids t) (s.pc t) s.mem).1 (rw up at e)),
  )
  | inr down ↦ rw down (dead_thread r down)
]

-- In a process that lives, none has.
pub lives-places :
    {n : ℕ} {ids : ℕ → ℕ} {s : System}
    → Reach n ids s
    → s.alive ≡ true
    → (t : ℕ) → is_alive (s.pc t) ≡ true
unfolding step
lives-places start up t = refl
lives-places {ids = ids} (later {s} t here r) e u = elim (Bool-cases s.alive) [
  | inl up ↦
      let lives : is_alive (turn (ids t) (s.pc t) s.mem).1 ≡ true = rw up at e in
      rw up (ground (arith, lives-places r up u, lives))
  | inr down ↦ let dead : false ≡ true = rw down at e in cc
]

-- The process is aborted only when at least three threads share the lock: then one has called
-- `abort`, and two others own a slot each. The ids are not 0 and differ.
pub abort_needs_three :
    {n : ℕ} {ids : ℕ → ℕ} {s : System}
    → ThreadIds n ids
    → Reach n ids s
    → s.alive ≡ false
    → (t : ℕ) × (u : ℕ) × (v : ℕ) × (t < n)
      × (u < n)
      × (v < n)
      × (t ≢ u)
      × (t ≢ v)
      × (u ≢ v)
      × (s.pc t ≡ Pc.aborted)
      × (s.mem (owner first) ≡ ids u)
      × (s.mem (owner second) ≡ ids v)
abort_needs_three {n} {ids} {s} known r down =
    let (t, ht, e) = dead_thread r down in
    let (one, two, apart, not_one, not_two) = abort_needs_third known r t ht e in
    let (u, hu, a) = Reach-Owned known r first one in
    let (v, hv, b) = Reach-Owned known r second two in
    (
      t,
      u,
      v,
      ht,
      hu,
      hv,
      (λ z. not_one (sym a ∙ ap ids (sym z))),
      (λ z. not_two (sym b ∙ ap ids (sym z))),
      (λ z. apart (sym a ∙ ap ids z ∙ b)),
      e,
      sym a,
      sym b,
    )

-- Two threads never abort.
pub two_alive :
    {n : ℕ} {ids : ℕ → ℕ} {s : System} → ThreadIds n ids → Reach n ids s → n ≤ 2 → s.alive ≡ true
two_alive {s = s} known r few = elim (Bool-cases s.alive) [
  | inl up ↦ up
  | inr down ↦
      let (t, u, v, ht, hu, hv, tu, tv, uv, e, a, b) = abort_needs_three known r down in
      absurd (omega arith)
]
