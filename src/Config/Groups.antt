-- ===== src/Config/Groups.antt =====
-- groupcache_config.go: `NewGroup`, `NewGroupWithFilter` and `GetGroup`.
use cachecore.Base.{
  Bool, true, false, not, ◌&&◌, List, [], ◌∷◌, Option, none, some, is_some, ◌==◌, if◌then◌else◌,
  length,
}
use cachecore.Config.{Options, no_options, Setting, filter_setting, apply_each, configured_cache}
use cachecore.Filter.{FilterOps, new_filter_gate}
use cachecore.Go.Bytes.{Bytes, Key, codes}
use cachecore.Go.Int64.{Int64, slt}
use cachecore.Go.Map.{Map, lookup, insert}
use cachecore.Group.{CacheOps, Group}
use cachecore.Group.Maintenance.{start_filter_refresh}
use cachecore.Metrics.{Counters}
use cachecore.Shards.{Configured}

-- A call that may panic, with the text of the panic.
pub data Attempt (A : Type 0) : Type 0 where
  panics : Bytes → Attempt A
  returns : A → Attempt A

module _ {F C S : Type 0} ⦃c : CacheOps C⦄ ⦃o : FilterOps S⦄ (wrap : Configured F → C) where
  -- The group that `NewGroup` makes from its options; `stats` is the state of `Stats`.
  unfoldable pub make_group : Counters → Key → Int64 → Options F C S → Group C S
  unfolding configured_cache new_filter_gate
  make_group stats name cache_bytes options = record {
    name = name;
    main_cache = configured_cache wrap cache_bytes options options.has_on_evicted true;
    peers = none;
    filter = new_filter_gate options.filter;
    filter_refresh = options.filter_refresh;
    janitor = options.janitor;
    cache_ttl = options.cache_ttl;
    cache_ttl_jitter = options.ttl_jitter;
    stale_cache =
        if slt 0 options.stale_ttl && slt 0 options.cache_ttl
        then some (configured_cache wrap cache_bytes options false false)
        else none;
    stale_ttl = options.stale_ttl;
    negative_cache_enabled = options.negative_cache_enabled;
    negative_ttl = options.negative_ttl;
    singleflight_wait_ttl = options.load_wait_ttl;
    stats = stats;
  }

  -- `NewGroup`, with the registry; `has_getter` says that the getter is not `nil`. The loop of the
  -- janitor that it starts is `Group.Maintenance.run`.
  unfoldable pub new_group :
      F
      → Counters
      → Map (Group C S)
      → Key
      → Int64
      → Bool
      → List (Option (Setting F C S))
      → Attempt (Map (Group C S) × Group C S)
  unfolding make_group apply_each no_options start_filter_refresh
  new_group zero_ratio stats groups name cache_bytes has_getter opts =
      if length name == 0
      then panics (codes "group name is required")
      else (if not has_getter
          then panics (codes "nil Getter")
          else (let made =
                make_group stats name cache_bytes (apply_each opts (no_options zero_ratio)) in
              let g =
                if slt 0 made.filter_refresh
                then start_filter_refresh made made.filter_refresh
                else made in
              returns (insert name g groups, g)))

  unfoldable pub new_group_with_filter :
      F
      → Counters
      → Map (Group C S)
      → Key
      → Int64
      → Bool
      → Option S
      → Attempt (Map (Group C S) × Group C S)
  unfolding new_group
  new_group_with_filter zero_ratio stats groups name cache_bytes has_getter filter =
      if length name == 0
      then panics (codes "group name is required")
      else (if not (is_some filter)
          then panics (codes "nil Filter")
          else new_group zero_ratio stats groups name cache_bytes has_getter
              (some (filter_setting filter) ∷ []))

-- `GetGroup`; `none` is `nil`.
unfoldable pub get_group : {C S : Type 0} → Map (Group C S) → Key → Option (Group C S)
get_group groups name = lookup name groups
