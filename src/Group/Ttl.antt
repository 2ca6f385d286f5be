-- ===== src/Group/Ttl.antt =====
-- The random lifetimes of cached values: their bounds, and the overflow of the range of the jitter.
use cachecore.Base.{ℕ, ◌+◌, ◌^◌, ◌<◌, ◌≤◌, ◌≡◌, true, false, arith}
use cachecore.Go.Int64
use cachecore.Go.Int64.{Int64, half, modulus, slt}
use cachecore.Group.{range_n, next_ttl}

-- With a base of at least 1 and a jitter below 2 ^ 62 that do not add up to 2 ^ 63, the range
-- given to the random generator is positive as an `int64`, and the lifetime is at least 1 and
-- within the jitter of the base, for every number below the range.
pub next_ttl_bounds :
    (base jitter random : ℕ)
    → 0 < base
    → jitter < 2 ^ 62
    → base + jitter < half
    → random < range_n jitter
    → (slt 0 (range_n jitter) ≡ true)
      × (0 < next_ttl base jitter random)
      × (base ≤ next_ttl base jitter random + jitter)
      × (next_ttl base jitter random ≤ base + jitter)
unfolding next_ttl range_n Int64.add Int64.sub slt
next_ttl_bounds base jitter random p q s t = ground arith

-- For a jitter from 2 ^ 62 ns on that is an `int64`, the range given to the random generator is
-- not positive as an `int64`.
pub range_n-overflow :
    (jitter : ℕ) → 2 ^ 62 ≤ jitter → jitter < half → slt 0 (range_n jitter) ≡ false
unfolding range_n slt Int64.add
range_n-overflow jitter p q = ground arith
