-- ===== src/Sync/Peterson/Bypass/Once.antt =====
-- A whole schedule in which one thread waits.
use paracore.Base.{
  ℕ, ◌≤◌, ◌<◌, ◌≡◌, ◌≢◌, inl, inr, refl, sym, ap, ◌∙◌, List, [], ◌∷◌, true, false, ◌==◌, Bool-cases,
  ==→ne, Among, arith,
}
use paracore.Core.Thread.{ThreadIds}
use paracore.Sync.Peterson.{Slot}
use paracore.Sync.Peterson.System.{System, step, Reach, later}
use paracore.Sync.Peterson.Invariant.{Waits}
use paracore.Sync.Peterson.Safety.{no_overtaking}
use paracore.Sync.Peterson.Waiting.{own_step}
use paracore.Sync.Peterson.Bypass.{holds, entry, bypasses, KeepsWaiting}
use paracore.Sync.Peterson.Bypass.Turns.{holds-Holds, not_holds, enters-Waits}
use paracore.Sync.Peterson.Bypass.Behind.{Behind, step-dead, step-Behind, enters-Behind}

pub KeepsWaiting-Waits :
    (ids : ℕ → ℕ) (u : ℕ) (i : Slot) (ts : List ℕ) (s : System)
    → KeepsWaiting ids u i ts s
    → Waits (s.pc u) i
unfolding KeepsWaiting
KeepsWaiting-Waits ids u i [] s w = w
KeepsWaiting-Waits ids u i (t ∷ ts) s w = w.0

-- Who is behind does not enter.
entry-Behind :
    {n : ℕ} {ids : ℕ → ℕ} (s : System)
    → ThreadIds n ids
    → Reach n ids s
    → (u t : ℕ) → u < n
    → t < n
    → t ≢ u
    → (i : Slot) → Waits (s.pc u) i
    → Behind n u i s
    → entry (s.pc t) ((step ids t s).pc t) ≡ 0
entry-Behind {n} {ids} s known r u t hu ht ne i w behind = elim (Bool-cases (holds (s.pc t))) [
  | inl old ↦ rw old refl
  | inr out ↦ elim (Bool-cases (holds ((step ids t s).pc t))) [
    | inl enters ↦ absurd (elim (Bool-cases s.alive) [
      | inl up ↦
          let (j, waits) =
            enters-Waits (ids t) (s.pc t) s.mem out
              (ap holds (sym (own_step ids t s up).0) ∙ enters) in
          (no_overtaking s known r t u ht hu ne i w (behind t ht ne j waits)
              (not_holds (s.pc t) out)).0
            (holds-Holds ((step ids t s).pc t) enters)
      | inr down ↦
          let same : (step ids t s).pc t ≡ s.pc t =
            ap (λ (k : System). k.pc t) (step-dead ids t s down) in
          let both : false ≡ true = sym out ∙ (ap holds (sym same) ∙ enters) in cc
    ])
    | inr stays ↦ rw (out, stays) refl
  ]
]

-- As long as `u` waits and the others are behind, nobody enters.
none_enters :
    {n : ℕ} {ids : ℕ → ℕ} (ts : List ℕ) (s : System)
    → ThreadIds n ids
    → Reach n ids s
    → (u : ℕ) → u < n
    → (i : Slot) → Among n ts
    → KeepsWaiting ids u i ts s
    → Behind n u i s
    → bypasses ids u ts s ≡ 0
unfolding bypasses KeepsWaiting
none_enters [] s known r u hu i all waits behind = refl
none_enters {n} {ids} (t ∷ ts) s known r u hu i all waits behind =
    let rest : bypasses ids u ts (step ids t s) ≡ 0 =
      none_enters ts (step ids t s) known (later t all.0 r) u hu i all.1 waits.1
        (step-Behind s known r u t hu all.0 i waits.0 behind) in
    elim (Bool-cases (t == u)) [
      | inl own ↦ rw own (omega (arith, rest))
      | inr apart ↦ rw apart (
          omega
            (arith, rest, entry-Behind s known r u t hu all.0 (==→ne t u apart) i waits.0 behind))
    ]

-- Bounded bypass: in any schedule from a reachable state all through which thread `u` waits in a
-- slot, the other threads enter at most once, counted together. The ids are not 0 and differ, and
-- the process may be aborted on the way.
pub bypassed_once :
    {n : ℕ} {ids : ℕ → ℕ} (ts : List ℕ) (s : System)
    → ThreadIds n ids
    → Reach n ids s
    → (u : ℕ) → u < n
    → (i : Slot) → Among n ts
    → KeepsWaiting ids u i ts s
    → bypasses ids u ts s ≤ 1
unfolding bypasses KeepsWaiting
bypassed_once [] s known r u hu i all waits = omega arith
bypassed_once {n} {ids} (t ∷ ts) s known r u hu i all waits =
    let rest : bypasses ids u ts (step ids t s) ≤ 1 =
      bypassed_once ts (step ids t s) known (later t all.0 r) u hu i all.1 waits.1 in
    elim (Bool-cases (t == u)) [
      | inl own ↦ rw own (omega (arith, rest))
      | inr apart ↦ rw apart (elim (Bool-cases (holds ((step ids t s).pc t))) [
        | inl inside ↦ ground (
          arith,
          none_enters ts (step ids t s) known (later t all.0 r) u hu i all.1 waits.1 (
              enters-Behind (step ids t s) known (later t all.0 r) u t hu all.0 (==→ne t u apart) i
                (KeepsWaiting-Waits ids u i ts (step ids t s) waits.1) inside),
        )
        | inr outside ↦ ground (arith, rest)
      ])
    ]
