-- ===== src/Mem/Reclaim.antt =====
-- mem/reclaim.hpp and mem/detail/reclaim_impl.hpp: three ways to retire a node. The hazard and epoch
-- domains are stubs.
pub mod Leak
use paracore.Base.{ℕ, ◌+◌, ◌%◌, ◌^◌, Bool, ◌&&◌, ◌==◌, Option, none, some, if◌then◌else◌}
use paracore.Core.Status.{Status}
use paracore.Core.Outcome.{Outcome, ◌>>=◌}
use paracore.Core.Modules.{Module, not_built}

-- `retired` is a `size_t`, of 64 bits.
pub record LeakDomain : Type 0 where
  pub retired : ℕ

abbrev pub new_leak : LeakDomain
new_leak = record { retired = 0 }

-- The operations of a domain of nodes `N`.
pub record Domain (N S : Type 0) : Type 0 where
  pub retire : N → S → Status × S
  pub reclaim : S → ℕ × S
  pub retired_count : S → ℕ

abbrev pub leak_domain : {N : Type 0} → Domain N LeakDomain
leak_domain = record {
  retire = λ node d. (Status.ok, record { retired = (d.retired + 1) % 2 ^ 64 });
  reclaim = λ d. (0, d);
  retired_count = λ d. d.retired;
}

-- A pointer with the counter that tells two uses of an address apart.
pub record TaggedPtr : Type 0 where
  pub ptr : Option ℕ
  pub tag : ℕ

abbrev pub same_pointer : Option ℕ → Option ℕ → Bool
same_pointer none none = Bool.true
same_pointer (some p) (some q) = p == q
same_pointer _ _ = Bool.false

-- The defaulted `operator==`, which compares the members.
unfoldable pub tagged_eq : TaggedPtr → TaggedPtr → Bool
tagged_eq p q = same_pointer p.ptr q.ptr && p.tag == q.tag

-- `HazardDomain<T, Hazards>` and `EpochDomain<T>`, whose constructors have the default 64.
pub record HazardDomain : Type 0 where
  pub max_threads : ℕ

pub record EpochDomain : Type 0 where
  pub max_threads : ℕ

abbrev pub new_hazard : ℕ → HazardDomain
new_hazard max_threads = record { max_threads = max_threads }

abbrev pub new_epoch : ℕ → EpochDomain
new_epoch max_threads = record { max_threads = max_threads }

abbrev pub hazard_domain : {N : Type 0} → Domain N HazardDomain
hazard_domain = record {
  retire = λ node d. (Status.not_built, d);
  reclaim = λ d. (0, d);
  retired_count = λ d. 0;
}

abbrev pub epoch_domain : {N : Type 0} → Domain N EpochDomain
epoch_domain = record {
  retire = λ node d. (Status.not_built, d);
  reclaim = λ d. (0, d);
  retired_count = λ d. 0;
}

-- What `Registration(d).status()` says, and `protect` and `clear` of a slot. The cell that
-- `protect` reads is not read yet.
abbrev pub registration_status : HazardDomain → Status
registration_status d = Status.not_built

abbrev pub protect : {N : Type 0} → (slot : ℕ) → HazardDomain → Outcome (Option N × HazardDomain)
protect slot d = not_built Module.reclamation "HazardDomain::protect"

abbrev pub clear : (slot : ℕ) → HazardDomain → HazardDomain
clear slot d = d

-- A `Guard<slot>` that protects one source, with its destructor.
abbrev pub guarded : {N : Type 0} → (slot : ℕ) → HazardDomain → Outcome (Option N × HazardDomain)
guarded slot d = protect slot d >>= λ r. Outcome.returns (r.0, clear slot r.1)

-- A `Registration` and a `Pin` leave their domains as they are, both when they are made and when they
-- go.
abbrev pub registered : HazardDomain → HazardDomain
registered d = d

abbrev pub pinned : EpochDomain → EpochDomain
pinned d = d
