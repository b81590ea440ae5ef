-- ===== src/Playground/Lines.antt =====
-- Where the slots of falsesharing.cpp and bench_false_sharing.cpp stand: an array of numbers next to
-- each other, and one of `CacheAligned` of sync/atomic.hpp, both from an address on that a line of
-- the cache begins with.
use native.Mathlib.Nat.{mul_assoc, suc-mul, mul-le-mul_right}
use paracore.Base.{
  ℕ, suc, sym, ◌∙◌, ◌-◌, ◌+◌, ◌*◌, ◌/◌, ◌≤◌, ◌<◌, ◌≡◌, ◌≢◌, ◌↔◌, ◌⊎◌, inl, inr, arith,
}
use paracore.Sync.Atomic.{cache_line, aligned_size}

-- The line of an address, and the address of a byte of an element.
abbrev pub line : ℕ → ℕ
line a = a / cache_line

abbrev pub at : (base size i byte : ℕ) → ℕ
at base size i byte = base + i * size + byte

-- The line of a byte of the element `i`, where an element has `k` lines.
line-at : (b k i p : ℕ) → line (at (b * 64) (k * 64) i p) ≡ b + i * k + p / 64
line-at b k i p = rw (sym (mul_assoc i k 64)) (omega arith)

past : (k i j : ℕ) → i < j → i * k + k ≤ j * k
past k i j h = let le : suc i * k ≤ j * k = mul-le-mul_right k h in omega (arith, suc-mul i k)

differ : (i j : ℕ) → i ≢ j → (i < j) ⊎ (j < i)
differ i j ne = ground arith

-- In an array of `CacheAligned` that begins at a line of the cache, a byte of one element and a
-- byte of another never lie in the same line, whatever the size of the elements.
pub spread_apart :
    (lines size i j p q : ℕ)
    → i ≢ j
    → p < size
    → q < size
    → line (at (lines * cache_line) (aligned_size size) i p)
      ≢ line (at (lines * cache_line) (aligned_size size) j q)
unfolding aligned_size
spread_apart b size i j p q ne hp hq e =
    let k : ℕ = (size + 64 - 1) / 64 in
    let same : b + i * k + p / 64 ≡ b + j * k + q / 64 =
      sym (line-at b k i p) ∙ e ∙ line-at b k j q in
    elim (differ i j ne) [
      | inl before ↦ omega (arith, past k i j before, same)
      | inr after ↦ omega (arith, past k j i after, same)
    ]

-- Two elements of 8 bytes in an array that begins at a line lie in one line exactly when they are in
-- the same eight.
pub packed_together :
    (lines i j : ℕ)
    → (line (at (lines * cache_line) 8 i 0) ≡ line (at (lines * cache_line) 8 j 0))
      ↔ (i / 8 ≡ j / 8)
packed_together b i j = (λ h. omega arith, λ h. omega arith)
