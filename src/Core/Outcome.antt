-- ===== src/Core/Outcome.antt =====
-- How a call ends. `std::abort()` is a value here, with what was printed before it; `blocks` is a
-- call that has not returned.
use paracore.Base.{ℕ, ◌≡◌, refl, String}

-- What stands in the text that goes to stderr before `std::abort()`.
pub data Message : Type 0 where
  silent : Message
  unbuilt : (what name : String) → Message  -- `not_built`
  mutex_failed : (op : String) (rc : ℕ) (why : String) → Message  -- `mutex_fatal`

pub data Outcome {ℓ} (A : Type ℓ) : Type ℓ where
  returns : A → Outcome A
  aborts : Message → Outcome A
  blocks : Outcome A

infixl 5 ◌>>=◌ ◌>>◌
abbrev pub ◌>>=◌ {ℓ κ} : {A : Type ℓ} {B : Type κ} → Outcome A → (A → Outcome B) → Outcome B
returns a >>= f = f a
aborts m >>= f = aborts m
blocks >>= f = blocks

abbrev pub ◌>>◌ {ℓ κ} : {A : Type ℓ} {B : Type κ} → Outcome A → Outcome B → Outcome B
m >> k = m >>= λ _. k

-- What comes after `o`, step by step.
pub bind-cong {ℓ κ μ ν} :
    {A : Type ℓ} {B : Type κ} {B' : Type μ} {C : Type ν} (o : Outcome A)
    → (f : A → Outcome B) (g : B → Outcome C) (h : A → Outcome B') (e : B' → Outcome C)
    → ((a : A) → (f a >>= g) ≡ (h a >>= e))
    → ((o >>= f) >>= g) ≡ ((o >>= h) >>= e)
bind-cong (Outcome.returns a) f g h e same = same a
bind-cong (Outcome.aborts m) f g h e same = refl
bind-cong Outcome.blocks f g h e same = refl

abbrev pub Returns {ℓ} : {A : Type ℓ} → Outcome A → Type 0
Returns (Outcome.returns a) = Unit
Returns o = ⊥

abbrev pub Aborts {ℓ} : {A : Type ℓ} → Outcome A → Type 0
Aborts (Outcome.aborts m) = Unit
Aborts o = ⊥
