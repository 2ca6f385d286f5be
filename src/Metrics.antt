-- ===== src/Metrics.antt =====
-- stats.go: the counters that groups write, and the window of recent latencies.
pub mod Latency
pub mod Sampling
pub mod Window
use cachecore.Base.{
  ℕ, zero, suc, ◌+◌, ◌-◌, ◌%◌, ◌^◌, Bool, true, false, List, [], ◌∷◌, ◌++◌, Option, none, some, ltb,
  leb, ◌==◌, if◌then◌else◌, length, get_elem?,
}
use cachecore.Go.Hash.{modulus32}
use cachecore.Go.Int64
use cachecore.Ring.{sort, key_at}

-- The counters of `Metrics` that a group writes; `uint64`s.
pub record Counters : Type 0 where
  pub group_gets : ℕ
  pub cache_hits : ℕ
  pub cache_misses : ℕ
  pub peer_loads : ℕ
  pub local_loads : ℕ
  pub filter_misses : ℕ

unfoldable pub inc_group_gets : Counters → Counters
inc_group_gets s = record s { group_gets = Int64.add s.group_gets 1 }

unfoldable pub inc_cache_hits : Counters → Counters
inc_cache_hits s = record s { cache_hits = Int64.add s.cache_hits 1 }

unfoldable pub inc_cache_misses : Counters → Counters
inc_cache_misses s = record s { cache_misses = Int64.add s.cache_misses 1 }

unfoldable pub inc_peer_loads : Counters → Counters
inc_peer_loads s = record s { peer_loads = Int64.add s.peer_loads 1 }

unfoldable pub inc_local_loads : Counters → Counters
inc_local_loads s = record s { local_loads = Int64.add s.local_loads 1 }

unfoldable pub inc_filter_misses : Counters → Counters
inc_filter_misses s = record s { filter_misses = Int64.add s.filter_misses 1 }

-- `latencyWindow`: microseconds as `uint32`s, the latest at the end. `cap` is an `int` that is not negative.
pub record LatencyWindow : Type 0 where
  pub samples : List ℕ
  pub cap : ℕ

unfoldable pub clamp : ℕ → ℕ
clamp us = if ltb (modulus32 - 1) us then modulus32 - 1 else us

unfoldable pub drop_first : List ℕ → List ℕ
drop_first [] = []
drop_first (x ∷ xs) = xs

unfoldable pub observe : LatencyWindow → ℕ → LatencyWindow
unfolding clamp drop_first
observe w us =
    let cap = if w.cap == 0 then 8192 else w.cap in
    if ltb (length w.samples) cap
    then record { samples = w.samples ++ (clamp us ∷ []); cap = cap }
    else record { samples = drop_first w.samples ++ (clamp us ∷ []); cap = cap }

-- `percentileIndex(n, p)` from `ceil(n * p)`, which floating point yields, for `n` of at least 1.
unfoldable pub percentile_index : ℕ → ℕ → ℕ
percentile_index n ceil = let idx = ceil - 1 in if leb n idx then n - 1 else idx

-- `ceil95` and `ceil99` are `ceil(n * 0.95)` and `ceil(n * 0.99)`.
unfoldable pub p95_p99_and_reset :
    (ℕ → ℕ) → (ℕ → ℕ) → LatencyWindow → LatencyWindow × Option (ℕ × ℕ)
unfolding percentile_index
p95_p99_and_reset ceil95 ceil99 w =
    let n = length w.samples in
    let buf = sort w.samples in
    if n == 0
    then (w, none)
    else ((
      record w { samples = [] },
      some (key_at buf (percentile_index n (ceil95 n)), key_at buf (percentile_index n (ceil99 n))),
    ))
