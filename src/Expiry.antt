-- ===== src/Expiry.antt =====
-- What internal/lru/lru.go and internal/lru/slru.go share: values with a size, and expiry times.
-- Instants are numbers of nanoseconds; a `time.Duration` is an `int64`.
use cachecore.Base.{ℕ, ◌+◌, ◌≤◌, ◌≡◌, Bool, false, Option, none, some, ltb, if◌then◌else◌, arith}
use cachecore.Go.Int64.{Int64, slt}

-- The interface `Value`.
pub record Value (V : Type 0) : Type 0 where
  pub len : V → ℕ

-- `!expireAt.IsZero() && now.After(expireAt)`; `none` is the zero time, which never passes.
unfoldable pub passed : Option ℕ → ℕ → Bool
passed none now = false
passed (some t) now = ltb t now

-- `time.Now().Add(ttl)` for a positive `ttl`, and else the zero time.
unfoldable pub deadline : Int64 → ℕ → Option ℕ
deadline ttl now = if slt 0 ttl then some (now + ttl) else none

-- What has not passed later had not passed before.
pub passed_mono : (t : Option ℕ) (m n : ℕ) → m ≤ n → passed t n ≡ false → passed t m ≡ false
unfolding passed
passed_mono none m n h p = p
passed_mono (some t) m n h p = ground arith
