-- ===== src/Store.antt =====
-- cache.go: a cache of views that is made when it is first written, as an LRU or an SLRU cache.
-- Readings of the clock are arguments. The lock makes each method one step.
pub mod Numeric
pub mod Runs
pub mod Histories
pub mod Counter
use cachecore.Base.{
  ℕ, zero, suc, ◌+◌, Bool, true, false, not, ◌&&◌, List, [], ◌∷◌, Option, none, some, ltb, ◌==◌,
  if◌then◌else◌, length, ◌>>=◌,
}
use cachecore.Expiry.{Value}
use cachecore.Go.Bytes.{Bytes, Key}
use cachecore.Go.Int64
use cachecore.Go.Int64.{Int64}
use cachecore.Go.Numbers.{parse_int, trim_space, format_int}
use cachecore.Lru
use cachecore.Slru
use cachecore.Slru.{Ratio}
use cachecore.View.{ByteView, view, is_not_found, view_Value}

-- The implementations of the interface `localCache`.
pub data LocalCache (F : Type 0) : Type 0 where
  lru : Lru.Cache ByteView → LocalCache F
  slru : Slru.Cache F ByteView → LocalCache F

-- The struct `cache`. `has_on_evicted` says that the callback is not `nil`.
pub record Store (F : Type 0) : Type 0 where
  pub store : Option (LocalCache F)
  pub cache_bytes : Int64
  pub has_on_evicted : Bool
  pub use_slru : Bool
  pub slru_protected_ratio : F

pub data IncrementError : Type 0 where
  non_numeric_value : IncrementError

pub data IncrementResult : Type 0 where
  failed : IncrementError → IncrementResult
  counted : Int64 → IncrementResult

unfoldable pub parse_numeric_value : Bytes → Option Int64
parse_numeric_value raw = parse_int (trim_space raw)

-- The number that `increment` starts from; `none` is its error.
unfoldable pub current : Option ByteView → Option Int64
unfolding parse_numeric_value is_not_found
current none = some 0
current (some v) =
    if not (is_not_found v) && ltb 0 (length v.b) then parse_numeric_value v.b else some 0

-- A `cache` before it is first written.
unfoldable pub new : {F : Type 0} → Int64 → Bool → Bool → F → Store F
new cache_bytes has_on_evicted use_slru ratio = record {
  store = none;
  cache_bytes = cache_bytes;
  has_on_evicted = has_on_evicted;
  use_slru = use_slru;
  slru_protected_ratio = ratio;
}

module _ {F : Type 0} ⦃r : Ratio F⦄ where
  -- The callback given to the caches is never `nil`: it looks for `onEvicted` when it is called.
  unfoldable pub fresh : Store F → LocalCache F
  fresh c =
      if c.use_slru
      then slru (Slru.new c.cache_bytes c.slru_protected_ratio true)
      else lru (Lru.new c.cache_bytes true)

  unfoldable pub ensure_store : Store F → LocalCache F
  unfolding fresh
  ensure_store c = elim c.store [ none ↦ fresh c | some s ↦ s ]

  -- The calls of `onEvicted`.
  unfoldable pub evictions : Store F → List (Key × ByteView)
  evictions c = elim c.store [
    | none ↦ []
    | some s ↦ if c.has_on_evicted then elim s [ lru l ↦ l.evicted | slru l ↦ l.evicted ] else []
  ]

  unfoldable pub local_add_with_ttl :
      LocalCache F → Key → ByteView → Int64 → ℕ → Option (LocalCache F)
  local_add_with_ttl (lru l) key value ttl now = do
    l' ← Lru.add_with_ttl l key value ttl now
    some (lru l')
  local_add_with_ttl (slru l) key value ttl now =
      some (slru (Slru.add_with_ttl l key value ttl now))

  unfoldable pub local_get : LocalCache F → Key → ℕ → LocalCache F × Option ByteView
  local_get (lru l) key now = let (l', v) = Lru.get l key now in (lru l', v)
  local_get (slru l) key now = let (l', v) = Slru.get l key now in (slru l', v)

  unfoldable pub local_remove : LocalCache F → Key → LocalCache F
  local_remove (lru l) key = lru (Lru.remove l key)
  local_remove (slru l) key = slru (Slru.remove l key)

  -- `Slru.remove_expired` reads the clock once, `Lru.remove_expired` for every entry.
  unfoldable pub local_remove_expired : LocalCache F → (ℕ → ℕ) → LocalCache F
  local_remove_expired (lru l) clock = lru (Lru.remove_expired l clock)
  local_remove_expired (slru l) clock = slru (Slru.remove_expired l (clock 0))

  unfoldable pub add_with_ttl : Store F → Key → ByteView → Int64 → ℕ → Option (Store F)
  unfolding ensure_store local_add_with_ttl
  add_with_ttl c key value ttl now = do
    s ← local_add_with_ttl (ensure_store c) key value ttl now
    some (record c { store = some s })

  unfoldable pub add : Store F → Key → ByteView → ℕ → Option (Store F)
  unfolding add_with_ttl
  add c key value now = add_with_ttl c key value 0 now

  unfoldable pub get : Store F → Key → ℕ → Store F × Option ByteView
  unfolding local_get
  get c key now = elim c.store [
    | none ↦ (c, none)
    | some s ↦ let (s', v) = local_get s key now in (record c { store = some s' }, v)
  ]

  -- The clock is read by `Get` and then by `AddWithTTL`.
  unfoldable pub increment :
      Store F
      → Key
      → Int64
      → Int64
      → Option (Bytes → ByteView)
      → ℕ
      → ℕ
      → Option (Store F × IncrementResult)
  unfolding ensure_store current local_add_with_ttl
  increment c key delta ttl make_value now later =
      let (s, found) = local_get (ensure_store c) key now in
      elim (current found) [
        | none ↦ some (record c { store = some s }, failed non_numeric_value)
        | some n ↦ do
          let next = Int64.add n delta
          let raw = format_int next
          let value : ByteView = elim make_value [ none ↦ view raw | some f ↦ f raw ]
          t ← local_add_with_ttl s key value ttl later
          some (record c { store = some t }, counted next)
      ]

  unfoldable pub remove : Store F → Key → Store F
  unfolding local_remove
  remove c key = elim c.store [ none ↦ c | some s ↦ record c { store = some (local_remove s key) } ]

  unfoldable pub clearup_expired : Store F → (ℕ → ℕ) → Store F
  unfolding local_remove_expired
  clearup_expired c clock = elim c.store [
    | none ↦ c
    | some s ↦ record c { store = some (local_remove_expired s clock) }
  ]
