-- ===== src/Tests/Filters.antt =====
-- The Bloom filter and the filter gate at work, and the theorems about them.
use cachecore.Base.{◌≡◌, refl, ◌↔◌, true, false, [], ◌∷◌, some, arith, All}
use cachecore.Bloom.{BloomFilter, new, indexes, contains, reset, add}
use cachecore.Bloom
use cachecore.Bloom.Exact.{Touches, contains-Touches}
use cachecore.Bloom.Membership.{HasBits, add_all, contains-added}
use cachecore.Filter.{FilterGate, rejects, warmup}
use cachecore.Filter
use cachecore.Filter.Admission.{bloom_FilterOps, bloom_KeepsItems, add_each, Admits, warmup-Admits}
use cachecore.Go.Hash.{fnv32a, crc32}
use cachecore.Go.Int64.{slt}
use cachecore.Tests.{a, b}

-- 100 bits and 3 hashes.
abbrev small : BloomFilter
small = new 100 3

small-HasBits : HasBits small
unfolding new slt
small-HasBits = (omega arith, omega arith)

-- The code finds "a" after it is added, and "b" is not in the filter.
finds_a : contains (add small a) a ≡ true
unfolding new slt contains add indexes Bloom.index_loop Bloom.set_loop Bloom.test_loop fnv32a crc32
finds_a = refl

misses_b : contains (add small a) b ≡ false
unfolding new slt contains add indexes Bloom.index_loop Bloom.set_loop Bloom.test_loop fnv32a crc32
misses_b = refl

contains-added_example : All (λ x. contains (add_all small (a ∷ b ∷ [])) x ≡ true) (a ∷ b ∷ [])
contains-added_example = contains-added (a ∷ b ∷ []) small small-HasBits

contains-Touches_example :
    (contains (add_all (reset small) (a ∷ [])) b ≡ true)
    ↔ All (Touches small (a ∷ [])) (indexes small b)
contains-Touches_example = contains-Touches small (a ∷ []) b small-HasBits

abbrev gate : FilterGate BloomFilter
gate = record { filter = small; ready = false; warmup_keys = []; refresh_stop = false }

warmup-Admits_example :
    All (Admits (add_each (warmup (some gate) (a ∷ []) (λ k. true)).0 (b ∷ []))) (a ∷ [])
    × All (Admits (add_each (warmup (some gate) (a ∷ []) (λ k. true)).0 (b ∷ []))) (b ∷ [])
unfolding bloom_KeepsItems warmup Filter.load_loop
warmup-Admits_example =
    warmup-Admits bloom_KeepsItems gate (a ∷ []) (b ∷ []) (λ k. true) small-HasBits refl
