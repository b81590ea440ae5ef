-- ===== src/Sync/Peterson/Buffered/Alone.antt =====
-- Threads of the machine with store buffers that run for a while without the others.
use paracore.Base.{
  ℕ, zero, suc, ◌<◌, ◌≡◌, ◌≢◌, refl, true, subst, inl, inr, Bool-cases, ◌∙◌, update_self, update_ne,
}
use paracore.Sync.Memory.Buffer.{Pending, flush}
use paracore.Sync.Peterson.{Members, lock_cells, Pc, Orders}
use paracore.Sync.Peterson.System.{is_alive}
use paracore.Sync.Peterson.Buffered.{Buffered, turn_buffered, step, release_store, Reach, later}

-- A thread's pending stores, the memory, and its place.
abbrev pub Local : Type 0
Local = (b : Pending lock_cells) × (m : Members) × Pc

module _ (o : Orders) where
  -- `k` accesses in a row of thread `t`.
  abbrev pub run : (ℕ → ℕ) → ℕ → ℕ → Buffered → Buffered
  run ids t zero s = s
  run ids t (suc k) s = run ids t k (step o ids t s)

  pub run-Reach :
      {n : ℕ} {ids : ℕ → ℕ} (t k : ℕ) {s : Buffered}
      → t < n
      → Reach o n ids s
      → Reach o n ids (run ids t k s)
  run-Reach t zero here r = r
  run-Reach t (suc k) here r = run-Reach t k here (later t here r)

  abbrev pub next : ℕ → Local → Local
  next me (b, m, p) = turn_buffered o me p b m

  abbrev pub solo : ℕ → ℕ → Local → Local
  solo me zero l = l
  solo me (suc k) l = solo me k (next me l)

  -- None of the `k` next accesses aborts.
  abbrev pub Lives : ℕ → ℕ → Local → Type 0
  Lives me zero l = Unit
  Lives me (suc k) l = (is_alive (next me l).2 ≡ true) × Lives me k (next me l)

  -- Thread `t` of a live process is at `l`.
  pub record At (s : Buffered) (t : ℕ) (l : Local) : Type 0 where
    pub alive : s.alive ≡ true
    pub here : (s.pending t, s.mem, s.pc t) ≡ l

  local : Buffered → ℕ → Local
  local s t = (s.pending t, s.mem, s.pc t)

  step-here :
      (ids : ℕ → ℕ) (s : Buffered) (t : ℕ)
      → s.alive ≡ true
      → is_alive (next (ids t) (local s t)).2 ≡ true
      → At (step o ids t s) t (next (ids t) (local s t))
  unfolding step local
  step-here ids s t up lives =
      rw up (record { alive = lives; here = rw (update_self s.pending t, update_self s.pc t) refl })

  pub step-At :
      (ids : ℕ → ℕ) (s : Buffered) (t : ℕ) (l : Local)
      → At s t l
      → is_alive (next (ids t) l).2 ≡ true
      → At (step o ids t s) t (next (ids t) l)
  unfolding local
  step-At ids s t l at =
      subst (λ k. is_alive (next (ids t) k).2 ≡ true → At (step o ids t s) t (next (ids t) k))
        at.here (step-here ids s t at.alive)

  pub run-At :
      (ids : ℕ → ℕ) (t k : ℕ) (s : Buffered) (l : Local)
      → At s t l
      → Lives (ids t) k l
      → At (run ids t k s) t (solo (ids t) k l)
  run-At ids t zero s l at lives = at
  run-At ids t (suc k) s l at lives =
      run-At ids t k (step o ids t s) (next (ids t) l) (step-At ids s t l at lives.0) lives.1

  -- Another thread stays where it is.
  pub step-other :
      (ids : ℕ → ℕ) (t u : ℕ) (s : Buffered)
      → t ≢ u
      → ((step o ids t s).pc u ≡ s.pc u) × ((step o ids t s).pending u ≡ s.pending u)
  unfolding step
  step-other ids t u s ne = elim (Bool-cases s.alive) [
    | inl up ↦ rw up (update_ne s.pc t u _ ne, update_ne s.pending t u _ ne)
    | inr down ↦ rw down (refl, refl)
  ]

  pub run-other :
      (ids : ℕ → ℕ) (t u k : ℕ) (s : Buffered)
      → t ≢ u
      → ((run ids t k s).pc u ≡ s.pc u) × ((run ids t k s).pending u ≡ s.pending u)
  run-other ids t u zero s ne = (refl, refl)
  run-other ids t u (suc k) s ne =
      let (place, buffer) = run-other ids t u k (step o ids t s) ne in
      let (place', buffer') = step-other ids t u s ne in (place ∙ place', buffer ∙ buffer')

  -- A thread's oldest store reaches memory, and its place stays.
  release-here :
      (s : Buffered) (t : ℕ)
      → s.alive ≡ true
      → let (b, m) = flush lock_cells (s.pending t) s.mem in At (release_store t s) t (b, m, s.pc t)
  unfolding release_store
  release-here s t up = record { alive = up; here = rw (update_self s.pending t) refl }

  pub release-At :
      (s : Buffered) (t : ℕ) (b : Pending lock_cells) (m : Members) (p : Pc)
      → At s t (b, m, p)
      → let (b', m') = flush lock_cells b m in At (release_store t s) t (b', m', p)
  unfolding local
  release-At s t b m p at =
      subst
        (λ (l : Local).
          let (b', m') = flush lock_cells l.0 l.1 in At (release_store t s) t (b', m', l.2))
        at.here (release-here s t at.alive)

  -- Another thread sees only what has reached memory.
  release-elsewhere :
      (s : Buffered) (t u : ℕ)
      → t ≢ u
      → s.alive ≡ true
      → let (b, m) = flush lock_cells (s.pending t) s.mem in
        At (release_store t s) u (s.pending u, m, s.pc u)
  unfolding release_store
  release-elsewhere s t u ne up = record {
    alive = up;
    here = rw (update_ne s.pending t u _ ne) refl;
  }

  pub release-other :
      (s : Buffered) (t u : ℕ) (c b : Pending lock_cells) (m : Members) (p : Pc)
      → t ≢ u
      → s.pending t ≡ c
      → At s u (b, m, p)
      → let (c', m') = flush lock_cells c m in At (release_store t s) u (b, m', p)
  unfolding local
  release-other s t u c b m p ne e at =
      let seen =
        subst (λ k. At (release_store t s) u (s.pending u, (flush lock_cells k s.mem).1, s.pc u)) e
          (release-elsewhere s t u ne at.alive) in
      subst (λ (l : Local). At (release_store t s) u (l.0, (flush lock_cells c l.1).1, l.2)) at.here
        seen
