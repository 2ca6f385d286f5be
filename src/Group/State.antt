-- ===== src/Group/State.antt =====
-- groupcache.go: the interface of caches, the state of a group, lifetimes, and what a group does
-- with a value that it has.
use cachecore.Base.{ℕ, Bool, not, ◌&&◌, [], Option, none, some, if◌then◌else◌, ◌>>=◌}
use cachecore.Filter
use cachecore.Filter.{FilterOps, FilterGate, rejects}
use cachecore.Go.Bytes.{Bytes, Key}
use cachecore.Go.Int64
use cachecore.Go.Int64.{Int64, slt}
use cachecore.Http.Pool.{HttpPool}
use cachecore.Janitor.{Janitor}
use cachecore.Metrics.{Counters}
use cachecore.Store.{IncrementResult}
use cachecore.View.{ByteView, view, with_not_found, is_not_found}

-- The interface `Cache`.
pub record CacheOps (C : Type 0) : Type 0 where
  pub add : C → Key → ByteView → ℕ → Option C
  pub add_with_ttl : C → Key → ByteView → Int64 → ℕ → Option C
  pub get : C → Key → ℕ → Option (C × Option ByteView)
  pub increment :
      C → Key → Int64 → Int64 → Option (Bytes → ByteView) → ℕ → ℕ → Option (C × IncrementResult)
  pub remove : C → Key → Option C
  -- the clock by shard and entry
  pub clearup_expired : C → (ℕ → ℕ → ℕ) → C

pub record Group (C S : Type 0) : Type 0 where
  pub name : Key
  pub main_cache : C
  pub peers : Option HttpPool
  pub filter : Option (FilterGate S)
  pub filter_refresh : Int64
  pub janitor : Option Janitor
  pub cache_ttl : Int64
  pub cache_ttl_jitter : Int64
  pub stale_cache : Option C
  pub stale_ttl : Int64
  pub negative_cache_enabled : Bool
  pub negative_ttl : Int64
  pub singleflight_wait_ttl : Int64
  pub stats : Counters

-- `int64(g.cacheTTLJitter)*2 + 1`
unfoldable pub range_n : Int64 → Int64
range_n jitter = Int64.add (Int64.add jitter jitter) 1

-- `nextTTL`; `random` is what `rand.Int63n(rangeN)` returns, which is below `rangeN`.
unfoldable pub next_ttl : Int64 → Int64 → ℕ → Int64
next_ttl cache_ttl jitter random =
    if slt 0 cache_ttl
    then (if slt 0 jitter
        then (let ttl = Int64.add cache_ttl (Int64.sub random jitter) in
            if slt 0 ttl then ttl else 1)
        else cache_ttl)
    else 0

unfoldable pub stamp_active_value : Bytes → ByteView
stamp_active_value b = view b

module _ {C S : Type 0} ⦃c : CacheOps C⦄ ⦃o : FilterOps S⦄ where
  -- `if ttl > 0 { active.addWithTTL(...) } else { active.add(...) }`
  unfoldable pub store_value : Group C S → Key → ByteView → Int64 → ℕ → Option (Group C S)
  store_value g key value ttl now = do
    cache ←
        if slt 0 ttl
        then c.add_with_ttl g.main_cache key value ttl now
        else c.add g.main_cache key value now
    some (record g { main_cache = cache })

  unfoldable pub record_stale : Group C S → Key → ByteView → Int64 → ℕ → Option (Group C S)
  record_stale g key value active_ttl now = elim g.stale_cache [
    | none ↦ some g
    | some stale ↦
        if slt 0 g.stale_ttl && slt 0 active_ttl && not (is_not_found value)
        then (do
          stale' ← c.add_with_ttl stale key value (Int64.add active_ttl g.stale_ttl) now
          some (record g { stale_cache = some stale' }))
        else some g
  ]

  unfoldable pub add_to_filter : Group C S → Key → Group C S
  add_to_filter g key = record g { filter = Filter.add g.filter key }

  unfoldable pub count : (Counters → Counters) → Group C S → Group C S
  count f g = record g { stats = f g.stats }

  -- What `getFromPeer`, `getLocally` and `incrementLocally` do with a value that they have.
  unfoldable pub keep_value : Group C S → Key → ByteView → ℕ → ℕ → Option (Group C S)
  unfolding next_ttl store_value record_stale add_to_filter
  keep_value g key value random now =
      let ttl = next_ttl g.cache_ttl g.cache_ttl_jitter random in
      do
        stored ← store_value g key value ttl now
        staled ← record_stale stored key value ttl now
        some (add_to_filter staled key)

  unfoldable pub cache_negative : Group C S → Key → ℕ → Option (Group C S)
  unfolding stamp_active_value with_not_found
  cache_negative g key now =
      if g.negative_cache_enabled && slt 0 g.negative_ttl
      then (do
        cache ←
            c.add_with_ttl g.main_cache key (with_not_found (stamp_active_value [])) g.negative_ttl
              now
        some (record g { main_cache = cache }))
      else some g
