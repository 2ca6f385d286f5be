-- ===== src/Config.antt =====
-- groupcache_config.go: the options, `NewGroup` and the registry of groups. The caches that a group
-- makes are those of `Shards.new_configured_cache`, as values of the type `C` of a provided cache.
pub mod Groups
pub mod Settled
use cachecore.Base.{
  ℕ, Bool, true, false, ◌&&◌, List, [], ◌∷◌, Option, none, some, ◌==◌, if◌then◌else◌, length,
}
use cachecore.Go.Int64
use cachecore.Go.Int64.{Int64, slt}
use cachecore.Janitor.{Janitor, new_janitor}
use cachecore.Shards.{Configured, new_configured_cache}

-- The type `Options`. Of the incrementer and the callback only their presence counts.
pub record Options (F C S : Type 0) : Type 0 where
  pub filter : Option S
  pub has_incrementer : Bool
  pub janitor : Option Janitor
  pub has_on_evicted : Bool
  pub cache : Option C
  pub use_shards : Bool
  pub use_slru : Bool
  pub shards : ℕ
  pub slru_protected_ratio : F
  pub cache_ttl : Int64
  pub ttl_jitter : Int64
  pub stale_ttl : Int64
  pub load_wait_ttl : Int64
  pub negative_ttl : Int64
  pub load_wait_ttl_set : Bool
  pub negative_ttl_set : Bool
  pub negative_cache_enabled : Bool
  pub filter_refresh : Int64

-- `&Options{}`, for the ratio 0.
unfoldable pub no_options : {F C S : Type 0} → F → Options F C S
no_options zero_ratio = record {
  filter = none;
  has_incrementer = false;
  janitor = none;
  has_on_evicted = false;
  cache = none;
  use_shards = false;
  use_slru = false;
  shards = 0;
  slru_protected_ratio = zero_ratio;
  cache_ttl = 0;
  ttl_jitter = 0;
  stale_ttl = 0;
  load_wait_ttl = 0;
  negative_ttl = 0;
  load_wait_ttl_set = false;
  negative_ttl_set = false;
  negative_cache_enabled = false;
  filter_refresh = 0;
}

module _ {F C S : Type 0} where
  unfoldable pub with_filter : Option S → Options F C S → Options F C S
  with_filter filter o = record o { filter = filter }

  unfoldable pub with_filter_refresh : Int64 → Options F C S → Options F C S
  with_filter_refresh interval o = record o { filter_refresh = interval }

  unfoldable pub with_incrementer : Bool → Options F C S → Options F C S
  with_incrementer given o = record o { has_incrementer = given }

  unfoldable pub with_janitor : Int64 → Options F C S → Options F C S
  unfolding new_janitor
  with_janitor interval o = record o { janitor = some (new_janitor interval) }

  unfoldable pub with_on_evicted : Bool → Options F C S → Options F C S
  with_on_evicted given o = record o { has_on_evicted = given }

  unfoldable pub with_cache : Option C → Options F C S → Options F C S
  with_cache cache o = record o { cache = cache }

  unfoldable pub with_sharded_cache : ℕ → Options F C S → Options F C S
  with_sharded_cache shards o = record o { use_shards = true; shards = shards }

  unfoldable pub with_slru : F → Options F C S → Options F C S
  with_slru protected_ratio o = record o { use_slru = true; slru_protected_ratio = protected_ratio }

  unfoldable pub with_random_ttl : Int64 → Int64 → Options F C S → Options F C S
  with_random_ttl base_ttl jitter o =
      if slt 0 base_ttl
      then record o {
        cache_ttl = base_ttl;
        ttl_jitter = if slt jitter 0 then Int64.neg jitter else jitter;
      }
      else record o { cache_ttl = 0; ttl_jitter = 0 }

  unfoldable pub with_singleflight_wait_ttl : Int64 → Options F C S → Options F C S
  with_singleflight_wait_ttl ttl o = record o { load_wait_ttl = ttl; load_wait_ttl_set = true }

  unfoldable pub with_stale_while_revalidate : Int64 → Options F C S → Options F C S
  with_stale_while_revalidate ttl o = record o { stale_ttl = ttl }

  unfoldable pub with_negative_cache : Int64 → Options F C S → Options F C S
  with_negative_cache ttl o = record o {
    negative_ttl = ttl;
    negative_ttl_set = true;
    negative_cache_enabled = slt 0 ttl;
  }

-- A call of one of the functions that return an option.
pub data Setting (F C S : Type 0) : Type 0 where
  filter_setting : Option S → Setting F C S
  filter_refresh_setting : Int64 → Setting F C S
  incrementer_setting : Bool → Setting F C S
  janitor_setting : Int64 → Setting F C S
  on_evicted_setting : Bool → Setting F C S
  cache_setting : Option C → Setting F C S
  sharded_cache_setting : ℕ → Setting F C S
  slru_setting : F → Setting F C S
  random_ttl_setting : Int64 → Int64 → Setting F C S
  singleflight_wait_ttl_setting : Int64 → Setting F C S
  stale_while_revalidate_setting : Int64 → Setting F C S
  negative_cache_setting : Int64 → Setting F C S

module _ {F C S : Type 0} where
  unfoldable pub apply : Setting F C S → Options F C S → Options F C S
  unfolding with_filter with_filter_refresh with_incrementer with_janitor with_on_evicted with_cache
      with_sharded_cache with_slru with_random_ttl with_singleflight_wait_ttl
      with_stale_while_revalidate with_negative_cache
  apply (filter_setting f) o = with_filter f o
  apply (filter_refresh_setting i) o = with_filter_refresh i o
  apply (incrementer_setting b) o = with_incrementer b o
  apply (janitor_setting i) o = with_janitor i o
  apply (on_evicted_setting b) o = with_on_evicted b o
  apply (cache_setting c) o = with_cache c o
  apply (sharded_cache_setting n) o = with_sharded_cache n o
  apply (slru_setting r) o = with_slru r o
  apply (random_ttl_setting b j) o = with_random_ttl b j o
  apply (singleflight_wait_ttl_setting t) o = with_singleflight_wait_ttl t o
  apply (stale_while_revalidate_setting t) o = with_stale_while_revalidate t o
  apply (negative_cache_setting t) o = with_negative_cache t o

  -- The loop of `NewGroup` over its options, which may be `nil`.
  unfoldable pub apply_each : List (Option (Setting F C S)) → Options F C S → Options F C S
  unfolding apply
  apply_each [] o = o
  apply_each (none ∷ settings) o = apply_each settings o
  apply_each (some s ∷ settings) o = apply_each settings (apply s o)

  -- `newConfiguredCache`.
  unfoldable pub configured_cache : (Configured F → C) → Int64 → Options F C S → Bool → Bool → C
  unfolding new_configured_cache
  configured_cache wrap cache_bytes o has_on_evicted use_provided =
      let made = wrap (
        new_configured_cache cache_bytes o.use_shards o.shards has_on_evicted o.use_slru
          o.slru_protected_ratio) in
      if use_provided then elim o.cache [ some c ↦ c | none ↦ made ] else made
