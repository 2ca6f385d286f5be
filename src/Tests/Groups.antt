-- ===== src/Tests/Groups.antt =====
-- A group over an LRU store with a Bloom filter, and the theorems about its loads and waits.
use cachecore.Base.{ℕ, ◌≡◌, refl, true, false, [], Option, none, some, arith}
use cachecore.Bloom
use cachecore.Bloom.{BloomFilter}
use cachecore.Filter.{FilterGate, rejects}
use cachecore.Filter.Admission.{bloom_FilterOps}
use cachecore.Go.Bytes.{Bytes, key_dec}
use cachecore.Go.Int64.{of_nat, slt}
use cachecore.Errors.{not_found, Answer, ok, err}
use cachecore.Group.{Group, in_time, timer_fires, next_ttl, get_locally, get}
use cachecore.Group.Caches.{store_CacheOps}
use cachecore.Group.LruStores.{HasRoom, lru_ReadsBack}
use cachecore.Group.Rereads.{kept_as, Rereads, get_locally-reread}
use cachecore.Group.Stale.{Degrades, get_locally-Degrades}
use cachecore.Http.Pool.{no_peer}
use cachecore.Lru
use cachecore.Lru.Methods.{new-IsValid}
use cachecore.Lru.Runs.{IsGood}
use cachecore.Expiry.{passed, deadline}
use cachecore.Go.Map.{lookup, insert, delete}
use cachecore.Go.LinkedList.{total, value_of}
use cachecore.Go.Int64
use cachecore.Store
use cachecore.Store.{Store, ensure_store, fresh}
use cachecore.Tests.{a, b, v12, thousandths}
use cachecore.View.{ByteView, view_Value, len, is_not_found}

abbrev gate : FilterGate BloomFilter
gate = record { filter = Bloom.new 20 2; ready = false; warmup_keys = []; refresh_stop = false }

abbrev pub group : Group (Store ℕ) BloomFilter
group = record {
  name = b;
  peers = none;
  main_cache = Store.new 100 true true 500;
  filter = some gate;
  filter_refresh = 0;
  janitor = none;
  cache_ttl = 0;
  cache_ttl_jitter = 0;
  stale_cache = none;
  stale_ttl = 0;
  negative_cache_enabled = false;
  negative_ttl = 0;
  singleflight_wait_ttl = 0;
  stats = record {
    group_gets = 0;
    cache_hits = 0;
    cache_misses = 0;
    peer_loads = 0;
    local_loads = 0;
    filter_misses = 0;
  };
}

-- The group after "a" is loaded as "12".
abbrev loaded : Group (Store ℕ) BloomFilter
loaded = elim (get_locally group a (ok v12.b) 0 5) [ none ↦ group | some d ↦ d.0 ]

-- A group over an LRU store, with lifetimes of 10, and what is left after "a" is loaded as "12".
abbrev lru_group : Group (Store ℕ) BloomFilter
lru_group = record group { main_cache = Store.new 100 true false 500; cache_ttl = 10 }

abbrev lru_loaded : Group (Store ℕ) BloomFilter
lru_loaded = elim (get_locally lru_group a (ok v12.b) 0 5) [ none ↦ lru_group | some d ↦ d.0 ]

loads_into_lru : get_locally lru_group a (ok v12.b) 0 5 ≡ some (lru_loaded, ok v12)
unfolding get_locally slt store_CacheOps Store.add_with_ttl Store.new Lru.add_with_ttl Lru.shrink
    Lru.is_over Lru.store lookup Lru.new Lru.insert Int64.add Lru.cost of_nat view_Value
loads_into_lru = refl

new_HasRoom : HasRoom lru_group.main_cache a v12
unfolding Store.new Lru.new ensure_store fresh len total
new_HasRoom =
    let l : Lru.Cache ByteView = Lru.new 100 true in
    let g : IsGood 100 l = record {
      valid = new-IsValid 100 true;
      limit = refl;
      within = omega arith;
    } in
    (l, refl, g, omega arith, omega arith)

-- At the time 9 the value is still there, although the getter would answer differently.
get_locally-reread_example :
    Rereads {S = BloomFilter} lru_loaded a 9 (ok v12) in_time no_peer (err not_found) 0
unfolding rejects kept_as slt passed deadline lru_ReadsBack
get_locally-reread_example =
    get_locally-reread lru_ReadsBack lru_group lru_loaded a (ok v12.b) 0 5 (ok v12) v12 10 9 refl
      refl loads_into_lru refl refl new_HasRoom refl in_time no_peer (err not_found) 0

-- The same with a stale cache that keeps values for 20 longer.
abbrev stale_group : Group (Store ℕ) BloomFilter
stale_group = record lru_group { stale_cache = some (Store.new 100 true false 500); stale_ttl = 20 }

abbrev stale_loaded : Group (Store ℕ) BloomFilter
stale_loaded = elim (get_locally stale_group a (ok v12.b) 0 5) [ none ↦ stale_group | some d ↦ d.0 ]

loads_with_stale : get_locally stale_group a (ok v12.b) 0 5 ≡ some (stale_loaded, ok v12)
unfolding get_locally slt store_CacheOps Store.add_with_ttl Store.new Lru.add_with_ttl Lru.shrink
    Lru.is_over Lru.store lookup Lru.new Lru.insert Int64.add Lru.cost of_nat view_Value
    is_not_found
loads_with_stale = refl

-- At the time 20 the active value is gone, and the stale one is there.
get_locally-Degrades_example : Degrades {S = BloomFilter} stale_loaded a v12 20 false
unfolding rejects slt passed deadline lru_ReadsBack Int64.add next_ttl
get_locally-Degrades_example =
    get_locally-Degrades lru_ReadsBack stale_group stale_loaded a v12.b 0 5 (ok v12)
      (Store.new 100 true false 500) 20 refl loads_with_stale refl refl refl new_HasRoom new_HasRoom

-- A Get whose wait times out, with a hit of the stale cache after its miss.
abbrev waiting : Group (Store ℕ) BloomFilter
waiting = record stale_loaded { singleflight_wait_ttl = 3 }

abbrev hits_and_misses : Option (Group (Store ℕ) BloomFilter × Answer ByteView) → ℕ × ℕ
hits_and_misses none = (0, 0)
hits_and_misses (some d) = (d.0.stats.cache_hits, d.0.stats.cache_misses)

counts_both : hits_and_misses (get waiting a (timer_fires 23) no_peer (err not_found) 0 20) ≡ (1, 1)
unfolding get get_locally slt store_CacheOps Store.add_with_ttl Store.new Lru.add_with_ttl
    Lru.shrink Lru.is_over Lru.store lookup Lru.new Lru.insert Int64.add Lru.cost of_nat view_Value
    is_not_found Store.get Lru.get passed deadline Lru.remove insert key_dec value_of Lru.discard
    delete
counts_both = refl
