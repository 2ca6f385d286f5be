-- ===== src/Tests/Settings.antt =====
-- A group made from options, the sampling of latencies, and the theorems about them at concrete
-- inputs.
use cachecore.Base.{ℕ, ◌+◌, ◌-◌, ◌/◌, ◌≡◌, refl, List, [], ◌∷◌, Option, none, some, arith}
use cachecore.Bloom
use cachecore.Bloom.{BloomFilter}
use cachecore.Config.{
  Setting, random_ttl_setting, negative_cache_setting, stale_while_revalidate_setting,
  filter_setting, filter_refresh_setting,
}
use cachecore.Filter.Admission.{bloom_FilterOps}
use cachecore.Go.Int64
use cachecore.Go.Int64.{modulus}
use cachecore.Go.Map.{Map}
use cachecore.Group.{Group}
use cachecore.Group.Caches.{configured_CacheOps}
use cachecore.Metrics.Sampling.{sampled, sampled-quotient}
use cachecore.Shards.{Configured}
use cachecore.Tests.{thousandths}

-- A lifetime of 100 with a jitter of -5, negative and stale values, a filter and its refresh.
abbrev settings : List (Option (Setting ℕ (Configured ℕ) BloomFilter))
settings =
    some (random_ttl_setting 100 (modulus - 5))
    ∷ none
    ∷ some (negative_cache_setting 7)
    ∷ some (stale_while_revalidate_setting 50)
    ∷ some (filter_setting (some (Bloom.new 20 2)))
    ∷ some (filter_refresh_setting 9)
    ∷ []

abbrev same : Configured ℕ → Configured ℕ
same c = c

abbrev Groups : Type 0
Groups = Map (Group (Configured ℕ) BloomFilter)

-- With one in 3 sampled, 10 observations from the counter 4 on: 6, 9 and 12 are sampled.
samples_of_10 : sampled 3 10 4 ≡ 3
unfolding sampled Int64.add
samples_of_10 = refl

sampled-quotient_example : sampled 3 10 4 + 4 / 3 ≡ (4 + 10) / 3
sampled-quotient_example = sampled-quotient 3 10 4 (omega arith) (omega arith)
