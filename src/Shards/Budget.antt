-- ===== src/Shards/Budget.antt =====
-- The bytes of all shards of a configured cache together.
use cachecore.Base.{
  ℕ, ◌+◌, ◌*◌, ◌/◌, ◌<◌, ◌≤◌, ◌≡◌, Bool, List, [], ◌∷◌, Option, none, some, arith, length,
  Bool-cases, inl, inr, All, ◌==◌,
}
use native.Mathlib.Nat.{div-mul-le_self}
use cachecore.Go.Int64.{Int64, slt}
use cachecore.Go.LinkedList.{total}
use cachecore.Lru.Invariant.{size}
use cachecore.Shards.{ShardedCache, new, per_shard_bytes}
use cachecore.Shards.Routing.{run, run-new-Returns}
use cachecore.Slru.{Ratio}
use cachecore.Slru.Good.{AreLimits, effective}
use cachecore.Slru.Limits.{weight}
use cachecore.Store.{LocalCache, lru, slru, Store}
use cachecore.Store.Runs.{Call, IsSmall, IsGood, StoredIsGood}
use cachecore.View.{view_Value}

module _ {F : Type 0} ⦃r : Ratio F⦄ where
  -- The bytes of the entries of a cache.
  abbrev pub held : Option (LocalCache F) → ℕ
  held none = 0
  held (some (lru l)) = total size l.ll
  held (some (slru l)) = weight l

  abbrev pub held_all : List (Store F) → ℕ
  held_all [] = 0
  held_all (c ∷ cs) = held c.store + held_all cs

  held_le :
      (max : Int64) (ratio : F) (s : Option (LocalCache F))
      → StoredIsGood max ratio s
      → held s ≤ max
  held_le max ratio none g = omega arith
  held_le max ratio (some (lru l)) g = g.within
  held_le max ratio (some (slru l)) g = g.within

  held_all_le :
      (max : Int64) (ratio : F) (cs : List (Store F))
      → All (IsGood max ratio) cs
      → held_all cs ≤ length cs * max
  held_all_le max ratio [] a = omega arith
  held_all_le max ratio (c ∷ cs) a =
      grind (arith, held_le max ratio c.store a.0.stored, held_all_le max ratio cs a.1)

-- The shares of the shards, when there is a byte for each.
share_le : (bytes n : ℕ) → n ≤ bytes → n * per_shard_bytes bytes n ≤ bytes
unfolding per_shard_bytes
share_le bytes n q =
    let d : n * (bytes / n) ≤ bytes = grind (arith, div-mul-le_self bytes n) in
    elim (Bool-cases (slt 0 bytes)) [
      | inr e ↦ rw (per_shard_bytes, e) (omega arith)
      | inl e ↦ elim (Bool-cases (bytes / n == 0)) [
        | inl z ↦ rw (per_shard_bytes, e, z) (omega arith)
        | inr z ↦ rw (per_shard_bytes, e, z) d
      ]
    ]

-- With at least one shard and a byte for each, after every history of calls of a new sharded cache whose limit for a
-- shard is the share of a number of bytes, all shards together hold no more than that number. The share is
-- positive, with what a call can store it stays below 2 ^ 63, and its product with the ratio is a word.
pub run-new-held_all :
    {F : Type 0} ⦃r : Ratio F⦄ (seed n : ℕ) (bytes : Int64) (ratio : F)
    (has_on_evicted use_slru : Bool) (calls : List Call)
    → 0 < n
    → n ≤ bytes
    → AreLimits (per_shard_bytes bytes n) (effective ratio)
    → All (IsSmall (per_shard_bytes bytes n)) calls
    → (sc : ShardedCache F) × (run
          (new seed n (per_shard_bytes bytes n) has_on_evicted use_slru ratio)
          calls
        ≡ some sc)
      × (held_all sc.cs ≤ bytes)
run-new-held_all seed n bytes ratio has_on_evicted use_slru calls p q limits small =
    let max = per_shard_bytes bytes n in
    let (sc, e, g) =
      run-new-Returns seed n max ratio has_on_evicted use_slru calls p limits small in
    (
      sc,
      e,
      grind (arith, held_all_le max ratio sc.cs g.each, g.count, g.shards, share_le bytes n q),
    )
