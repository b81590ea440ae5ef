-- ===== src/Sync/Atomic.antt =====
-- `class Backoff` of sync/atomic.hpp. `unsigned` is 32 bits wide.
pub mod Window
pub mod Fences
use paracore.Base.{ℕ, zero, suc, ◌+◌, ◌-◌, ◌*◌, ◌/◌, ◌%◌, ◌^◌, ltb, ◌==◌, if◌then◌else◌}

pub record Backoff : Type 0 where
  pub limit : ℕ
  pub max : ℕ

-- `Backoff(max_spins)`
unfoldable pub new : ℕ → Backoff
new max_spins = record { limit = 1; max = if max_spins == 0 then 1 else max_spins }

-- `once()`: how often it called `cpu_relax()`, and the window after it.
unfoldable pub once : Backoff → ℕ × Backoff
once b = (b.limit, if ltb b.limit b.max then record b { limit = b.limit * 2 % 2 ^ 32 } else b)

unfoldable pub reset : Backoff → Backoff
reset b = record b { limit = 1 }

-- `n` calls of `once()`: how often they called `cpu_relax()`, and the window after them.
unfoldable pub repeated : ℕ → Backoff → ℕ × Backoff
repeated zero b = (0, b)
repeated (suc n) b =
    let (spins, b') = once b in let (more, b'') = repeated n b' in (spins + more, b'')

-- `kCacheLine`, in bytes.
abbrev pub cache_line : ℕ
cache_line = 64

-- `CacheAligned<T>`, made from a value, and its `operator*` and `operator->`.
pub record CacheAligned {ℓ} (A : Type ℓ) : Type ℓ where
  pub value : A

abbrev pub new_aligned {ℓ} : {A : Type ℓ} → A → CacheAligned A
new_aligned v = record { value = v }

abbrev pub deref {ℓ} : {A : Type ℓ} → CacheAligned A → A
deref c = c.value

-- The size of a `CacheAligned` whose `value` has `size` bytes: `alignas` rounds it up to lines.
unfoldable pub aligned_size : (size : ℕ) → ℕ
aligned_size size = (size + cache_line - 1) / cache_line * cache_line
