-- ===== src/Sync/Peterson/Waiting.antt =====
-- A waiting thread that is not the victim, in any schedule of the threads.
use paracore.Base.{
  ℕ, ◌<◌, ◌≡◌, ◌≢◌, ◌⊎◌, inl, inr, refl, sym, ap, subst, ◌∙◌, List, [], ◌∷◌, true, false,
  Bool-cases, update_self, update_ne, arith,
}
use paracore.Core.Thread.{ThreadIds}
use paracore.Sync.Peterson.{Slot, index, victim, Members, Pc}
use paracore.Sync.Peterson.System.{System, turn, step, Reach, later}
use paracore.Sync.Peterson.Invariant.{Holds, Waits, Reach-Inv}
use paracore.Sync.Peterson.Safety.{no_overtaking}

-- The threads make one access each, in this order.
unfoldable pub run : (ℕ → ℕ) → List ℕ → System → System
run ids [] s = s
run ids (t ∷ ts) s = run ids ts (step ids t s)

-- The threads are among the first `n`, and none is `u`.
abbrev pub Others : ℕ → ℕ → List ℕ → Type 0
Others n u [] = Unit
Others n u (t ∷ ts) = (t < n) × (t ≢ u) × Others n u ts

-- What the others leave as it was.
pub record Waiting (n : ℕ) (ids : ℕ → ℕ) (u : ℕ) (i : Slot) (s : System) : Type 0 where
  pub reach : Reach n ids s
  pub waits : Waits (s.pc u) i
  pub not_victim : s.mem victim ≢ index i

pub step-Waiting :
    {n : ℕ} {ids : ℕ → ℕ} {u : ℕ} {i : Slot} (s : System)
    → ThreadIds n ids
    → u < n
    → (t : ℕ) → t < n
    → t ≢ u
    → Waiting n ids u i s
    → Waiting n ids u i (step ids t s)
step-Waiting {n} {ids} {u} {i} s known hu t ht ne w =
    let (_, place, victim_kept) =
      no_overtaking s known w.reach t u ht hu ne i w.waits w.not_victim
        (λ h. w.not_victim ((Reach-Inv known w.reach).excluded t u i ht hu ne h w.waits)) in
    record {
      reach = later t ht w.reach;
      waits = subst (λ p. Waits p i) (sym place) w.waits;
      not_victim = victim_kept;
    }

run-Waiting :
    {n : ℕ} {ids : ℕ → ℕ} {u : ℕ} {i : Slot} (ts : List ℕ) (s : System)
    → ThreadIds n ids
    → u < n
    → Others n u ts
    → Waiting n ids u i s
    → Waiting n ids u i (run ids ts s)
unfolding run
run-Waiting [] s known hu others w = w
run-Waiting (t ∷ ts) s known hu others w =
    run-Waiting ts _ known hu others.2 (step-Waiting s known hu t others.0 others.1 w)

pub step-place : (ids : ℕ → ℕ) (u : ℕ) (s : System) (t : ℕ) → t ≢ u → (step ids t s).pc u ≡ s.pc u
unfolding step
step-place ids u s t ne = elim (Bool-cases s.alive) [
  | inl up ↦ rw up (update_ne s.pc t u _ ne)
  | inr down ↦ rw down refl
]

run-place :
    (n : ℕ) (ids : ℕ → ℕ) (u : ℕ) (ts : List ℕ) (s : System)
    → Others n u ts
    → (run ids ts s).pc u ≡ s.pc u
unfolding run
run-place n ids u [] s others = refl
run-place n ids u (t ∷ ts) s others =
    run-place n ids u ts (step ids t s) others.2 ∙ step-place ids u s t others.1

-- A process that lives has always lived.
pub step_alive : (ids : ℕ → ℕ) (t : ℕ) (s : System) → (step ids t s).alive ≡ true → s.alive ≡ true
unfolding step
step_alive ids t s e = elim (Bool-cases s.alive) [
  | inl up ↦ up
  | inr down ↦ let dead : false ≡ true = rw down at e in cc
]

pub run_alive :
    (ids : ℕ → ℕ) (ts : List ℕ) (s : System) → (run ids ts s).alive ≡ true → s.alive ≡ true
unfolding run
run_alive ids [] s e = e
run_alive ids (t ∷ ts) s e = step_alive ids t s (run_alive ids ts (step ids t s) e)

pub own_step :
    (ids : ℕ → ℕ) (u : ℕ) (s : System)
    → s.alive ≡ true
    → ((step ids u s).pc u ≡ (turn (ids u) (s.pc u) s.mem).1)
      × ((step ids u s).mem ≡ (turn (ids u) (s.pc u) s.mem).0)
unfolding step
own_step ids u s up = rw up (update_self s.pc u _, refl)

-- The first of the two accesses leads inside, or to the load of `victim_`.
first_turn :
    (me : ℕ) (p : Pc) (m : Members) (i : Slot)
    → Waits p i
    → m victim ≢ index i
    → (((turn me p m).1 ≡ Pc.inside) ⊎ ((turn me p m).1 ≡ Pc.see_victim i)) × ((turn me p m).0 ≡ m)
first_turn me Pc.outside m i w v = ground arith
first_turn me p m i w v = ground arith

second_turn :
    (me : ℕ) (m : Members) (i : Slot)
    → Holds (turn me Pc.inside m).1
      × (m victim ≢ index i → (turn me (Pc.see_victim i) m).1 ≡ Pc.inside)
second_turn me m i = ground arith

-- After `u`'s own first access: it is inside, or at the load of `victim_` and still not the victim.
pub own_first :
    {n : ℕ} {ids : ℕ → ℕ} {u : ℕ} {i : Slot} (s : System)
    → u < n
    → s.alive ≡ true
    → Waiting n ids u i s
    → ((step ids u s).pc u ≡ Pc.inside)
      ⊎ (((step ids u s).pc u ≡ Pc.see_victim i) × Waiting n ids u i (step ids u s))
own_first {n} {ids} {u} {i} s hu up w = elim turned.0 [
  | inl entered ↦ inl (own.0 ∙ entered)
  | inr looks ↦ inr (
    own.0 ∙ looks,
    record {
      reach = later u hu w.reach;
      waits = subst (λ p. Waits p i) (sym (own.0 ∙ looks)) refl;
      not_victim = λ e. w.not_victim (ap (λ (m : Members). m victim) (sym (own.1 ∙ turned.1)) ∙ e);
    },
  )
]
  where
    own :
        ((step ids u s).pc u ≡ (turn (ids u) (s.pc u) s.mem).1)
        × ((step ids u s).mem ≡ (turn (ids u) (s.pc u) s.mem).0)
    own = own_step ids u s up

    turned :
        (((turn (ids u) (s.pc u) s.mem).1 ≡ Pc.inside)
          ⊎ ((turn (ids u) (s.pc u) s.mem).1 ≡ Pc.see_victim i))
        × ((turn (ids u) (s.pc u) s.mem).0 ≡ s.mem)
    turned = first_turn (ids u) (s.pc u) s.mem i w.waits w.not_victim

-- From either place its second access leaves it holding the lock.
pub own_second :
    (ids : ℕ → ℕ) (u : ℕ) (i : Slot) (s : System)
    → s.alive ≡ true
    → (s.pc u ≡ Pc.inside) ⊎ ((s.pc u ≡ Pc.see_victim i) × (s.mem victim ≢ index i))
    → Holds ((step ids u s).pc u)
own_second ids u i s up place = subst Holds (sym (own_step ids u s up).0) (elim place [
  | inl entered ↦
      subst (λ p. Holds (turn (ids u) p s.mem).1) (sym entered) (second_turn (ids u) s.mem i).0
  | inr (looks, not_victim) ↦
      subst (λ p. Holds (turn (ids u) p s.mem).1) (sym looks)
        (subst Holds (sym ((second_turn (ids u) s.mem i).1 not_victim)) tt)
])

-- `u` makes two accesses, after those of `ts` and of `us`.
abbrev pub two_accesses : (ids : ℕ → ℕ) (u : ℕ) (ts us : List ℕ) → System → System
two_accesses ids u ts us s = step ids u (run ids us (step ids u (run ids ts s)))

-- Bounded waiting: from a reachable state in which thread `u` waits and is not the victim, after
-- two more accesses of `u`, with any number of accesses of other threads before and between them,
-- `u` holds the lock, if no thread has aborted the process. The ids are not 0 and differ.
pub waiter_enters :
    {n : ℕ} {ids : ℕ → ℕ} (s : System)
    → ThreadIds n ids
    → Reach n ids s
    → (u : ℕ) → u < n
    → (i : Slot) → Waits (s.pc u) i
    → s.mem victim ≢ index i
    → (ts us : List ℕ) → Others n u ts
    → Others n u us
    → (two_accesses ids u ts us s).alive ≡ true
    → Holds ((two_accesses ids u ts us s).pc u)
waiter_enters {n} {ids} s known r u hu i waits turn_of ts us before between lives =
    own_second ids u i c up (elim (own_first a hu (step_alive ids u a (run_alive ids us _ up)) w) [
      | inl entered ↦ inl (run-place n ids u us (step ids u a) between ∙ entered)
      | inr (looks, w') ↦ inr (
        run-place n ids u us (step ids u a) between ∙ looks,
        (run-Waiting us (step ids u a) known hu between w').not_victim,
      )
    ])
  where
    a : System
    a = run ids ts s

    w : Waiting n ids u i a
    w = run-Waiting ts s known hu before (record { reach = r; waits = waits; not_victim = turn_of })

    c : System
    c = run ids us (step ids u a)

    up : c.alive ≡ true
    up = step_alive ids u c lives
