-- ===== src/Shards.antt =====
-- sharded.go, increment_locks.go, and the choice of a cache in groupcache_config.go.
pub mod Routing
pub mod Budget
use Prim.Native.Nat.{bit_xor}
use cachecore.Base.{
  ℕ, zero, suc, ◌+◌, ◌*◌, ◌/◌, ◌%◌, ◌^◌, Bool, true, false, not, List, [], ◌∷◌, Option, none, some,
  ◌==◌, if◌then◌else◌, length, get_elem?, set, replicate, map, ◌>>=◌, ltb,
}
use cachecore.Go.Bytes.{Bytes, Key}
use cachecore.Go.Hash.{modulus32}
use cachecore.Go.Int64
use cachecore.Go.Int64.{Int64, slt}
use cachecore.Slru.{Ratio}
use cachecore.Store
use cachecore.Store.{Store, IncrementResult}
use cachecore.View.{ByteView}

-- `d = (d * 33) ^ uint32(k[i])` for each byte, in 32-bit arithmetic
unfoldable pub djb_loop : ℕ → Bytes → ℕ
djb_loop d [] = d
djb_loop d (b ∷ k) = djb_loop (bit_xor (d * 33 % modulus32) b) k

unfoldable pub djb33 : ℕ → Bytes → ℕ
unfolding djb_loop
djb33 seed k = let d = djb_loop ((5381 + seed + length k) % modulus32) k in bit_xor d (d / 2 ^ 16)

pub record ShardedCache (F : Type 0) : Type 0 where
  pub seed : ℕ
  pub m : ℕ
  pub cs : List (Store F)

-- `newShardedCache`
unfoldable pub new : {F : Type 0} → ℕ → ℕ → Int64 → Bool → Bool → F → ShardedCache F
new seed m cache_bytes has_on_evicted use_slru ratio = record {
  seed = seed;
  m = m;
  cs = replicate m (Store.new cache_bytes has_on_evicted use_slru ratio);
}

-- The index of `bucket`. The count of shards is never 0 where the program makes a sharded cache.
unfoldable pub index : {F : Type 0} → ShardedCache F → Key → ℕ
unfolding djb33
index sc key = djb33 sc.seed key % sc.m

-- `bucket`; `none` would be an index out of range.
unfoldable pub bucket : {F : Type 0} → ShardedCache F → Key → Option (Store F)
unfolding index
bucket sc key = get_elem? sc.cs (index sc key)

-- The bucket, changed in place.
unfoldable pub put : {F : Type 0} → ShardedCache F → Key → Store F → ShardedCache F
unfolding index
put sc key c = record sc { cs = set sc.cs (index sc key) c }

module _ {F : Type 0} ⦃r : Ratio F⦄ where
  unfoldable pub add_with_ttl :
      ShardedCache F → Key → ByteView → Int64 → ℕ → Option (ShardedCache F)
  unfolding bucket put
  add_with_ttl sc key value ttl now = do
    c ← bucket sc key
    c' ← Store.add_with_ttl c key value ttl now
    some (put sc key c')

  unfoldable pub add : ShardedCache F → Key → ByteView → ℕ → Option (ShardedCache F)
  unfolding bucket put
  add sc key value now = do c ← bucket sc key; c' ← Store.add c key value now; some (put sc key c')

  unfoldable pub get : ShardedCache F → Key → ℕ → Option (ShardedCache F × Option ByteView)
  unfolding bucket put
  get sc key now = do
    c ← bucket sc key
    let answer = Store.get c key now
    some (put sc key answer.0, answer.1)

  unfoldable pub increment :
      ShardedCache F
      → Key
      → Int64
      → Int64
      → Option (Bytes → ByteView)
      → ℕ
      → ℕ
      → Option (ShardedCache F × IncrementResult)
  unfolding bucket put
  increment sc key delta ttl make_value now later = do
    c ← bucket sc key
    done ← Store.increment c key delta ttl make_value now later
    some (put sc key done.0, done.1)

  unfoldable pub remove : ShardedCache F → Key → Option (ShardedCache F)
  unfolding bucket put
  remove sc key = do c ← bucket sc key; some (put sc key (Store.remove c key))

  -- The loop over the shards; `clock` gives the readings for each shard.
  unfoldable pub clear_each : (ℕ → ℕ → ℕ) → ℕ → List (Store F) → List (Store F)
  clear_each clock i [] = []
  clear_each clock i (c ∷ cs) = Store.clearup_expired c (clock i) ∷ clear_each clock (suc i) cs

  unfoldable pub clearup_expired : ShardedCache F → (ℕ → ℕ → ℕ) → ShardedCache F
  unfolding clear_each
  clearup_expired sc clock = record sc { cs = clear_each clock 0 sc.cs }

-- `newStripedLocks`: the number of locks. `stripes` is an `int`.
unfoldable pub new_striped_locks : Int64 → ℕ
new_striped_locks stripes = if slt 0 stripes then stripes else 256

-- The number of the lock that `lock` takes; `none` when there are no locks.
unfoldable pub lock_index : ℕ → Key → Option ℕ
unfolding djb33
lock_index locks key = if locks == 0 then none else some (djb33 0 key % (locks % modulus32))

unfoldable pub normalized_shard_count : ℕ → ℕ
normalized_shard_count shards = if shards == 0 then 256 else shards

-- `cacheBytes / int64(shards)`, which rounds towards 0, and 1 where that is not positive.
unfoldable pub per_shard_bytes : Int64 → ℕ → Int64
per_shard_bytes cache_bytes shards =
    if slt 0 cache_bytes then (if cache_bytes / shards == 0 then 1 else cache_bytes / shards) else 1

pub data Configured (F : Type 0) : Type 0 where
  sharded : ShardedCache F → Configured F
  single : Store F → Configured F

-- `newConfiguredCache` where no cache is provided.
unfoldable pub new_configured_cache :
    {F : Type 0} → Int64 → Bool → ℕ → Bool → Bool → F → Configured F
unfolding new normalized_shard_count per_shard_bytes
new_configured_cache cache_bytes use_shards shards has_on_evicted use_slru ratio =
    let n = normalized_shard_count shards in
    if use_shards
    then sharded (new 0 n (per_shard_bytes cache_bytes n) has_on_evicted use_slru ratio)
    else single (Store.new cache_bytes has_on_evicted use_slru ratio)
