-- ===== src/Config/Settled.antt =====
-- What every group that `NewGroup` makes is like.
use cachecore.Base.{◌<◌, ◌≡◌, ◌≢◌, Bool, false, ◌&&◌, Option, none, some, is_some}
use cachecore.Config.{Options, Setting, random_ttl_setting}
use cachecore.Go.Bytes.{Key}
use cachecore.Go.Int64
use cachecore.Go.Int64.{Int64, half, modulus, slt}
use cachecore.Go.Map.{Map}
use cachecore.Group.{Group}

-- The lifetimes that a group takes over: negative caching is on exactly for a positive lifetime,
-- and base and jitter are not negative.
pub record IsSettledBy (enabled : Bool) (negative_ttl cache_ttl ttl_jitter : Int64) : Type 0 where
  pub negative : enabled ≡ slt 0 negative_ttl
  pub base : slt cache_ttl 0 ≡ false
  pub jitter : slt ttl_jitter 0 ≡ false

abbrev pub IsSettled : {F C S : Type 0} → Options F C S → Type 0
IsSettled o = IsSettledBy o.negative_cache_enabled o.negative_ttl o.cache_ttl o.ttl_jitter

-- The jitter of a setting is not the least `int64`, which has no opposite.
abbrev pub HasOpposite : {F C S : Type 0} → Option (Setting F C S) → Type 0
HasOpposite (some (random_ttl_setting base_ttl jitter)) = (jitter < modulus) × (jitter ≢ half)
HasOpposite _ = Unit

-- A group that is ready for use: it has settled lifetimes, stale values exactly if they can be served, no
-- peers, and the name that it is registered with.
pub record IsReady {C S : Type 0} (name : Key) (g : Group C S) : Type 0 where
  pub settled : IsSettledBy g.negative_cache_enabled g.negative_ttl g.cache_ttl g.cache_ttl_jitter
  pub stale : is_some g.stale_cache ≡ (slt 0 g.stale_ttl && slt 0 g.cache_ttl)
  pub no_peers : g.peers ≡ none
  pub named : g.name ≡ name
