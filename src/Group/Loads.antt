-- ===== src/Group/Loads.antt =====
-- What a local load returns, and what it leaves in the filter.
use cachecore.Base.{ℕ, ◌≡◌, refl, Bool, true, false, Option, none, some, ◌>>=◌}
use cachecore.Errors.{not_found, filter_not_found, Answer, ok, err}
use cachecore.Filter
use cachecore.Filter.{FilterOps, FilterGate, rejects}
use cachecore.Filter.Admission.{KeepsItems}
use cachecore.Go.Bytes.{Bytes, Key}
use cachecore.Go.Int64.{Int64}
use cachecore.Group.{
  CacheOps, Group, stamp_active_value, count, keep_value, cache_negative, get_locally,
}
use cachecore.Metrics.{inc_local_loads, inc_filter_misses}
use cachecore.View.{view, clone_bytes}

abbrev is_ok : {A : Type 0} → Answer A → Bool
is_ok (ok a) = true
is_ok (err e) = false

abbrev value_in : {A : Type 0} → A → Answer A → A
value_in d (ok a) = a
value_in d (err e) = d

module _ {S : Type 0} ⦃o : FilterOps S⦄ (k : KeepsItems S) where
  -- The filter, if there is one, is in a sound state.
  abbrev pub SoundFilter : Option (FilterGate S) → Type 0
  SoundFilter none = Unit
  SoundFilter (some f) = k.IsSound f.filter

module _ {C S : Type 0} ⦃c : CacheOps C⦄ ⦃o : FilterOps S⦄ where
  pub rejected_load :
      (g : Group C S) (key : Key) (fetched : Answer Bytes) (random now : ℕ)
      → rejects g.filter key ≡ true
      → get_locally g key fetched random now
        ≡ some (count inc_filter_misses g, err (filter_not_found key))
  unfolding get_locally
  rejected_load g key fetched random now r = rw (get_locally, r) refl

  pub fetched_load :
      (g : Group C S) (key : Key) (bytes : Bytes) (random now : ℕ)
      → rejects g.filter key ≡ false
      → get_locally g key (ok bytes) random now ≡ (
          keep_value (count inc_local_loads g) key (view bytes) random now
          >>= (λ kept. some (kept, ok (view bytes))))
  unfolding get_locally stamp_active_value clone_bytes
  fetched_load g key bytes random now r = rw (get_locally, r) refl

  pub missing_load :
      (g : Group C S) (key : Key) (random now : ℕ)
      → rejects g.filter key ≡ false
      → get_locally g key (err not_found) random now
        ≡ (cache_negative g key now >>= (λ g'. some (g', err not_found)))
  unfolding get_locally
  missing_load g key random now r = rw (get_locally, r) refl
