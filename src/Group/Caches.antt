-- ===== src/Group/Caches.antt =====
-- The caches of views, single and sharded, as implementations of the interface `Cache`.
use cachecore.Base.{ℕ, Option, some, ◌>>=◌}
use cachecore.Go.Bytes.{Bytes, Key}
use cachecore.Go.Int64.{Int64}
use cachecore.Group.{CacheOps}
use cachecore.Shards
use cachecore.Shards.{ShardedCache, Configured, sharded, single}
use cachecore.Slru.{Ratio}
use cachecore.Store
use cachecore.Store.{Store, IncrementResult}
use cachecore.View.{ByteView}

instance unfoldable pub store_CacheOps : {F : Type 0} ⦃r : Ratio F⦄ → CacheOps (Store F)
store_CacheOps = record {
  add = Store.add;
  add_with_ttl = Store.add_with_ttl;
  get = λ c key now. some (Store.get c key now);
  increment = Store.increment;
  remove = λ c key. some (Store.remove c key);
  clearup_expired = λ c clock. Store.clearup_expired c (clock 0);
}

instance unfoldable pub sharded_CacheOps : {F : Type 0} ⦃r : Ratio F⦄ → CacheOps (ShardedCache F)
sharded_CacheOps = record {
  add = Shards.add;
  add_with_ttl = Shards.add_with_ttl;
  get = Shards.get;
  increment = Shards.increment;
  remove = Shards.remove;
  clearup_expired = Shards.clearup_expired;
}

-- The caches that a group makes for itself.
abbrev lift : {A B : Type 0} → (A → B) → Option A → Option B
lift f o = do a ← o; some (f a)

abbrev lift_first : {A B R : Type 0} → (A → B) → Option (A × R) → Option (B × R)
lift_first f o = do a ← o; some (f a.0, a.1)

module _ {F : Type 0} ⦃r : Ratio F⦄ where
  unfoldable configured_add : Configured F → Key → ByteView → ℕ → Option (Configured F)
  configured_add (sharded s) key value now = lift sharded (Shards.add s key value now)
  configured_add (single s) key value now = lift single (Store.add s key value now)

  unfoldable configured_add_with_ttl :
      Configured F → Key → ByteView → Int64 → ℕ → Option (Configured F)
  configured_add_with_ttl (sharded s) key value ttl now =
      lift sharded (Shards.add_with_ttl s key value ttl now)
  configured_add_with_ttl (single s) key value ttl now =
      lift single (Store.add_with_ttl s key value ttl now)

  unfoldable configured_get : Configured F → Key → ℕ → Option (Configured F × Option ByteView)
  configured_get (sharded s) key now = lift_first sharded (Shards.get s key now)
  configured_get (single s) key now = lift_first single (some (Store.get s key now))

  unfoldable configured_increment :
      Configured F
      → Key
      → Int64
      → Int64
      → Option (Bytes → ByteView)
      → ℕ
      → ℕ
      → Option (Configured F × IncrementResult)
  configured_increment (sharded s) key delta ttl make now later =
      lift_first sharded (Shards.increment s key delta ttl make now later)
  configured_increment (single s) key delta ttl make now later =
      lift_first single (Store.increment s key delta ttl make now later)

  unfoldable configured_remove : Configured F → Key → Option (Configured F)
  configured_remove (sharded s) key = lift sharded (Shards.remove s key)
  configured_remove (single s) key = some (single (Store.remove s key))

  unfoldable configured_clearup_expired : Configured F → (ℕ → ℕ → ℕ) → Configured F
  configured_clearup_expired (sharded s) clock = sharded (Shards.clearup_expired s clock)
  configured_clearup_expired (single s) clock = single (Store.clearup_expired s (clock 0))

instance unfoldable pub configured_CacheOps : {F : Type 0} ⦃r : Ratio F⦄ → CacheOps (Configured F)
unfolding configured_add configured_add_with_ttl configured_get configured_increment
    configured_remove configured_clearup_expired
configured_CacheOps = record {
  add = configured_add;
  add_with_ttl = configured_add_with_ttl;
  get = configured_get;
  increment = configured_increment;
  remove = configured_remove;
  clearup_expired = configured_clearup_expired;
}
