-- ===== src/Tests/Stores.antt =====
-- Caches of views, sharded and not, the latency window and the lifetimes, at concrete inputs.
use cachecore.Base.{
  ℕ, ◌+◌, ◌^◌, ◌-◌, ◌<◌, ◌≤◌, ◌≡◌, refl, true, false, List, [], ◌∷◌, map, some, arith, All,
}
use cachecore.Expiry.{passed, deadline}
use cachecore.Go.Bytes.{key_dec}
use cachecore.Go.Int64
use cachecore.Go.Int64.{Int64, half, modulus, slt}
use cachecore.Go.LinkedList
use cachecore.Go.Numbers
use cachecore.Go.Strconv
use cachecore.Go.Numbers.{format_int}
use cachecore.Go.LinkedList.{total}
use cachecore.Go.Map
use cachecore.Group.{range_n, next_ttl, stamp_active_value}
use cachecore.Group.Ttl.{next_ttl_bounds, range_n-overflow}
use cachecore.Lru
use cachecore.Lru.Methods.{new-IsValid, store-IsValid}
use cachecore.Lru.Runs as LruRuns
use cachecore.Metrics.{clamp}
use cachecore.Metrics.Window.{IsRecent, observe_all, observe-IsRecent}
use cachecore.Shards
use cachecore.Shards.Budget
use cachecore.Shards.Routing
use cachecore.Slru.Good.{AreLimits, effective}
use cachecore.Store.{Store, lru, counted, new, increment, get, current}
use cachecore.Store.Counter.{increment-get}
use cachecore.Store.Histories.{run-new-StepReturns}
use cachecore.Store.Numeric.{current-format_int}
use cachecore.Store.Runs.{Call, adds, gets, increments, removes, clears, IsSmall, run, StepReturns}
use cachecore.Tests.{a, b, v12, thousandths}
use cachecore.View.{ByteView, view, view_Value, len}

-- -5 as a word of 64 bits.
current-format_int_example : current (some (view (format_int (modulus - 5)))) ≡ some (modulus - 5)
current-format_int_example = current-format_int (modulus - 5) (omega arith)

limits : AreLimits {F = ℕ} 100 (effective 500)
limits = record { positive = omega arith; small = omega arith; word = omega arith }

abbrev history : List Call
history =
    adds a v12 10 5
    ∷ gets a 6
    ∷ increments a 3 0 (some stamp_active_value) 7 8
    ∷ removes b
    ∷ clears (λ n. 30)
    ∷ []

history-IsSmall : All (IsSmall 100) history
unfolding stamp_active_value
history-IsSmall = (omega arith, (tt, (λ raw p. omega (arith, p), (tt, (tt, tt)))))

run-new-StepReturns_example : StepReturns {F = ℕ} 100 500 (run (new 100 true true 500) history)
run-new-StepReturns_example = run-new-StepReturns 100 500 true true history limits history-IsSmall

run-new-Returns_example :
    Shards.Routing.Returns {F = ℕ} 4 100 500
      (Shards.Routing.run (Shards.new 0 4 100 true false 500) history)
run-new-Returns_example =
    Shards.Routing.run-new-Returns 0 4 100 500 true false history (omega arith) limits
      history-IsSmall

-- A store of 100 bytes in which "a" holds "12".
abbrev numbers : Lru.Cache ByteView
numbers = Lru.store (Lru.new 100 true) a v12 0 5

abbrev store : Store ℕ
store = record (new 100 true false 500) { store = some (lru numbers) }

numbers-IsGood : LruRuns.IsGood 100 numbers
unfolding Lru.store Lru.insert Lru.new Map.lookup Map.insert total view_Value len
numbers-IsGood = record {
  valid = store-IsValid _ a v12 0 5 (new-IsValid 100 true);
  limit = refl;
  within = omega arith;
}

holds_12 : current (Lru.get numbers a 6).1 ≡ some 12
unfolding Lru.store Lru.insert Lru.new Map.lookup Map.insert key_dec Lru.get current passed deadline
    LinkedList.value_of slt Numbers.parse_int Numbers.trim_space Numbers.trim Numbers.skip_front
    Numbers.is_space Numbers.is_space2 Numbers.skip_back Numbers.parse_positive Numbers.parse_digits
    Strconv.undigits
holds_12 = refl

increment-get_example :
    (after : Store ℕ) × (increment store a 5 0 (some stamp_active_value) 6 7
      ≡ some (after, counted (Int64.add 12 5)))
    × ((get after a 8).1 ≡ some (view (format_int (Int64.add 12 5))))
unfolding deadline passed slt new stamp_active_value
increment-get_example =
    increment-get 100 store numbers a 5 0 12 (some stamp_active_value) 6 7 8 refl numbers-IsGood
      (omega arith) (omega arith) (omega arith) (λ raw p. p) holds_12 refl

next_ttl_bounds_example :
    (slt 0 (range_n 10) ≡ true)
    × (0 < next_ttl 60 10 3)
    × (60 ≤ next_ttl 60 10 3 + 10)
    × (next_ttl 60 10 3 ≤ 60 + 10)
unfolding range_n Int64.add
next_ttl_bounds_example =
    next_ttl_bounds 60 10 3 (omega arith) (omega arith) (omega arith) (omega arith)

range_n-overflow_example : slt 0 (range_n (2 ^ 62)) ≡ false
range_n-overflow_example = range_n-overflow (2 ^ 62) (omega arith) (omega arith)

observe-IsRecent_example :
    IsRecent
      (observe_all (record { samples = []; cap = 2 }) (5 ∷ 6 ∷ 7 ∷ []))
      (map clamp (5 ∷ 6 ∷ 7 ∷ []))
observe-IsRecent_example = observe-IsRecent 2 (5 ∷ 6 ∷ 7 ∷ []) (omega arith)

-- 400 bytes in four shards.
run-new-held_all_example :
    (sc : Shards.ShardedCache ℕ) × (Shards.Routing.run
        (Shards.new 0 4 (Shards.per_shard_bytes 400 4) true false 500)
        history
      ≡ some sc)
    × (Shards.Budget.held_all sc.cs ≤ 400)
unfolding Shards.per_shard_bytes slt
run-new-held_all_example =
    Shards.Budget.run-new-held_all 0 4 400 500 true false history (omega arith) (omega arith) limits
      history-IsSmall
