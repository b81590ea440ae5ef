-- ===== src/Sync/Atomic/Window.antt =====
-- The window of a Backoff, call by call.
use native.Mathlib.Nat.{pow-zero, pow-suc, one-le-pow, zero-add, suc-add}
use paracore.Base.{
  ℕ, zero, suc, ◌+◌, ◌*◌, ◌%◌, ◌^◌, ◌≤◌, ◌<◌, ◌≡◌, ◌⊎◌, subst, refl, ap, ◌∙◌, ==_ne, lt→ltb, arith,
}
use paracore.Sync.Atomic.{Backoff, new, once, repeated}

-- Still doubling, or stopped at the first power of two that is not below the maximum.
abbrev Window : ℕ → ℕ → Backoff → Type 0
Window m n b =
    (b.max ≡ m)
    × (0 < b.limit)
    × (((b.limit ≡ 2 ^ n) × (b.limit < 2 * m)) ⊎ ((m ≤ b.limit) × (b.limit < 2 * m)))

once-Window : (m n : ℕ) (b : Backoff) → m ≤ 2 ^ 31 → Window m n b → Window m (suc n) (once b).1
unfolding once
once-Window m n b fits w = ground (arith, pow-suc 2 n)

repeated-Window :
    (m k n j : ℕ) (b : Backoff)
    → m ≤ 2 ^ 31
    → k + n ≡ j
    → Window m n b
    → Window m j (repeated k b).1
unfolding repeated
repeated-Window m zero n j b fits e w =
    let e' : n ≡ j = omega arith in subst (λ i. Window m i b) e' w
repeated-Window m (suc k) n j b fits e w =
    repeated-Window m k (suc n) j (once b).1 fits (omega arith) (once-Window m n b fits w)

-- With a maximum from 1 to 2 ^ 31, after `n` calls of `Backoff::once` the maximum is unchanged, and
-- the window is not 0, is below twice the maximum, and is 2 ^ n or has reached the maximum.
pub window_bounds :
    (m n : ℕ)
    → 0 < m
    → m ≤ 2 ^ 31
    → let b = (repeated n (new m)).1 in
      (b.max ≡ m) × (0 < b.limit) × (b.limit < 2 * m) × ((b.limit ≡ 2 ^ n) ⊎ (m ≤ b.limit))
unfolding new
window_bounds m n pos fits =
    ground (arith, repeated-Window m n 0 n (new m) fits (omega arith), pow-zero 2)

-- Once the window has reached the maximum it stays, so `n` more calls spin `n` times as long.
pub window_stays : (n : ℕ) (b : Backoff) → b.max ≤ b.limit → repeated n b ≡ (n * b.limit, b)
unfolding repeated once
window_stays zero b h = ground arith
window_stays (suc n) b h = ground (arith, window_stays n b h)

-- From a window `l` with l * 2 ^ j = 2 ^ 31, `j` calls double it to 2 ^ 31.
doubles :
    (m j l : ℕ)
    → 2 ^ 31 < m
    → l * 2 ^ j ≡ 2 ^ 31
    → (repeated j (record { limit = l; max = m })).1 ≡ record { limit = 2 ^ 31; max = m }
unfolding repeated once
doubles m zero l big e = ground (arith, pow-zero 2)
doubles m (suc j) l big e =
    let half : l * 2 * 2 ^ j ≡ 2 ^ 31 =
      omega (arith, pow-suc 2 j, ap (λ (t : ℕ). l * t) (pow-suc 2 j)) in
    let one : 1 ≤ 2 ^ j = one-le-pow j 2 (omega arith) in
    let small : l * 2 ≤ 2 ^ 31 = grind arith in
    let whole : l * 2 % 2 ^ 32 ≡ l * 2 = omega arith in
    rw (lt→ltb l m (omega arith), whole) (doubles m j (l * 2) big half)

repeated-add : (j k : ℕ) (b : Backoff) → (repeated (j + k) b).1 ≡ (repeated k (repeated j b).1).1
unfolding repeated
repeated-add zero k b = rw zero-add
repeated-add (suc j) k b = rw suc-add (repeated-add j k (once b).1)

wraps_once :
    (m : ℕ)
    → 2 ^ 31 < m
    → (repeated 1 (record { limit = 2 ^ 31; max = m })).1 ≡ record { limit = 0; max = m }
unfolding repeated once
wraps_once m big = ground arith

stuck_at_zero :
    (m n : ℕ)
    → 0 < m
    → repeated n (record { limit = 0; max = m }) ≡ (0, record { limit = 0; max = m })
unfolding repeated once
stuck_at_zero m zero pos = refl
stuck_at_zero m (suc n) pos = ground (arith, stuck_at_zero m n pos)

-- With a maximum above 2 ^ 31, which a 32-bit `unsigned` admits, the window of a Backoff is 0 after
-- 32 calls of `once`, and from then on no call spins or widens it.
pub window_wraps :
    (m n : ℕ)
    → 2 ^ 31 < m
    → m < 2 ^ 32
    → repeated n (repeated 32 (new m)).1 ≡ (0, record { limit = 0; max = m })
unfolding new
window_wraps m n big fits =
    ap (repeated n)
      (start ∙ (ap (λ b. (repeated 1 b).1) (doubles m 31 1 big refl) ∙ wraps_once m big))
    ∙ stuck_at_zero m n (omega arith)
  where
    start : (repeated 32 (new m)).1 ≡ (repeated 1 (repeated 31 (record { limit = 1; max = m })).1).1
    start = rw (==_ne m 0 (omega arith)) (repeated-add 31 1 (record { limit = 1; max = m }))
