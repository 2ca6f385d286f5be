-- ===== src/Group/Maintenance.antt =====
-- groupcache.go and groupcache_maintenance.go: the loop of the janitor, the warmup, and the refresh
-- of the filter.
use cachecore.Base.{ℕ, true, false, List, [], ◌∷◌, none, some}
use cachecore.Errors.{Answer, ok, err}
use cachecore.Filter
use cachecore.Filter.{FilterOps}
use cachecore.Go.Bytes.{Bytes, Key}
use cachecore.Go.Int64.{Int64}
use cachecore.Group.{CacheOps, Group}
use cachecore.View.{ByteView, view, clone_bytes}

-- What the `select` of `Run` receives: a tick, with the clock during the sweeps of the two caches, or
-- the end of the channel `stop`.
pub data Wake : Type 0 where
  tick : (ℕ → ℕ → ℕ) → (ℕ → ℕ → ℕ) → Wake
  stopped : Wake

module _ {C S : Type 0} ⦃c : CacheOps C⦄ ⦃o : FilterOps S⦄ where
  -- The case of a tick.
  unfoldable pub sweep : (ℕ → ℕ → ℕ) → (ℕ → ℕ → ℕ) → Group C S → Group C S
  sweep clock later g =
      let active = c.clearup_expired g.main_cache clock in
      elim g.stale_cache [
        | none ↦ record g { main_cache = active }
        | some stale ↦ record g {
          main_cache = active;
          stale_cache = some (c.clearup_expired stale later);
        }
      ]

  -- `Run`: the loop over what it receives.
  unfoldable pub run : List Wake → Group C S → Group C S
  unfolding sweep
  run [] g = g
  run (tick clock later ∷ wakes) g = run wakes (sweep clock later g)
  run (stopped ∷ wakes) g = g

  -- What `getLocallyOnlyForWarmUp` returns, for the answer of the getter; it adds the key of a value
  -- to the filter.
  unfoldable pub get_locally_only_for_warm_up :
      Group C S → Key → Answer Bytes → Group C S × Answer ByteView
  unfolding clone_bytes Filter.add
  get_locally_only_for_warm_up g key (err e) = (g, err e)
  get_locally_only_for_warm_up g key (ok bytes) =
      (record g { filter = Filter.add g.filter key }, ok (view (clone_bytes bytes)))

  -- `Warmup`, for what the getter answers in each of its calls, from number 0 on.
  unfoldable pub warm_up : Group C S → List Key → (ℕ → Answer Bytes) → Group C S
  unfolding Filter.warmup
  warm_up g keys fetched = record g {
    filter =
        (Filter.warmup g.filter keys (λ i. elim (fetched i) [ ok b ↦ true | err e ↦ false ])).0;
  }

  unfoldable pub start_filter_refresh : Group C S → Int64 → Group C S
  unfolding Filter.start_refresh
  start_filter_refresh g interval = record g { filter = Filter.start_refresh g.filter interval }

  unfoldable pub stop_filter_refresh : Group C S → Group C S
  unfolding Filter.stop_refresh
  stop_filter_refresh g = record g { filter = Filter.stop_refresh g.filter }
