-- ===== src/Filter.antt =====
-- groupcache_filter.go: the gate in front of the loader, around a membership filter. The locks make
-- each method one step; the ticker of the refresh loop is the caller of `tick`.
pub mod Admission
use cachecore.Base.{
  ℕ, suc, Bool, true, false, not, ◌&&◌, ◌||◌, List, [], ◌∷◌, Option, none, some, ◌==◌,
  if◌then◌else◌, length, is_some,
}
use cachecore.Go.Bytes.{Key}
use cachecore.Go.Int64.{Int64, slt}

-- The interfaces `Filter` and `ResettableFilter`; `reset` is `none` for a filter without `Reset`.
pub record FilterOps (S : Type 0) : Type 0 where
  pub add_item : S → Key → S
  pub contains_item : S → Key → Bool
  pub reset_items : Option (S → S)

-- `refresh_stop` says that the channel of that name is not `nil`: a refresh loop runs.
pub record FilterGate (S : Type 0) : Type 0 where
  pub filter : S
  pub ready : Bool
  pub warmup_keys : List Key
  pub refresh_stop : Bool

-- A gate is `none` where there is no filter.
unfoldable pub new_filter_gate : {S : Type 0} → Option S → Option (FilterGate S)
new_filter_gate none = none
new_filter_gate (some s) =
    some (record { filter = s; ready = false; warmup_keys = []; refresh_stop = false })

module _ {S : Type 0} ⦃o : FilterOps S⦄ where
  unfoldable pub add_key : FilterGate S → Key → FilterGate S
  add_key f key = record f { filter = o.add_item f.filter key }

  unfoldable pub add : Option (FilterGate S) → Key → Option (FilterGate S)
  unfolding add_key
  add none key = none
  add (some f) key = some (add_key f key)

  unfoldable pub rejects : Option (FilterGate S) → Key → Bool
  rejects none key = false
  rejects (some f) key = f.ready && not (o.contains_item f.filter key)

  -- The loop of `warmup`: every key is loaded, and the answer is whether none failed. `loads`
  -- says which of the loads, from number 0 on, succeed; a load that does adds its key, as `getLocallyOnlyForWarmUp` does.
  unfoldable pub load_loop : (ℕ → Bool) → List Key → FilterGate S → FilterGate S × Bool
  unfolding add_key
  load_loop loads [] f = (f, true)
  load_loop loads (key ∷ keys) f =
      let later : ℕ → Bool = λ i. loads (suc i) in
      let loaded = load_loop later keys (add_key f key) in
      let failed = load_loop later keys f in if loads 0 then loaded else (failed.0, false)

  unfoldable pub warmup :
      Option (FilterGate S) → List Key → (ℕ → Bool) → Option (FilterGate S) × Bool
  unfolding load_loop
  warmup none keys loads = (none, false)
  warmup (some f) keys loads =
      let (g, ok) = load_loop loads keys f in
      if ok then (some (record g { ready = true; warmup_keys = keys }), true) else (some g, false)

  -- `startRefresh` up to the start of the loop.
  unfoldable pub start_refresh : Option (FilterGate S) → Int64 → Option (FilterGate S)
  start_refresh none interval = none
  start_refresh (some f) interval =
      if slt 0 interval && is_some o.reset_items && not f.refresh_stop
      then some (record f { refresh_stop = true })
      else some f

  unfoldable pub stop_refresh : Option (FilterGate S) → Option (FilterGate S)
  stop_refresh none = none
  stop_refresh (some f) = some (record f { refresh_stop = false })

  unfoldable pub reset : FilterGate S → (S → S) → FilterGate S
  reset f reset_items = record f { ready = false; filter = reset_items f.filter }

  -- One round of the loop that `startRefresh` starts.
  unfoldable pub tick : Option (FilterGate S) → (S → S) → (ℕ → Bool) → Option (FilterGate S)
  unfolding reset warmup
  tick none reset_items loads = none
  tick (some f) reset_items loads =
      if length f.warmup_keys == 0
      then some f
      else (warmup (some (reset f reset_items)) f.warmup_keys loads).0
