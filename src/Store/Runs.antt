-- ===== src/Store/Runs.antt =====
-- Whole histories of calls of a cache of views, whichever implementation it is configured for.
use cachecore.Base.{
  ℕ, ◌+◌, ◌<◌, ◌≤◌, ◌≡◌, refl, sym, subst, inl, inr, true, List, [], ◌∷◌, Option, none, some,
  some-injective, length, ◌>>=◌, Bool-cases, Option-cases,
}
use cachecore.Go.Bytes.{Bytes, Key}
use cachecore.Go.Int64.{Int64, half}
use cachecore.Lru.Runs as LruRuns
use cachecore.Slru
use cachecore.Slru.{Ratio}
use cachecore.Slru.Good.{AreLimits, effective}
use cachecore.Slru.Good as SlruGood
use cachecore.Slru.Runs as SlruRuns
use cachecore.Store.{
  LocalCache, lru, slru, Store, fresh, ensure_store, local_add_with_ttl, local_get, local_remove,
  local_remove_expired, add_with_ttl, get, increment, remove, clearup_expired,
}
use cachecore.View.{ByteView, view_Value, len}

pub data Call : Type 0 where
  adds : Key → ByteView → Int64 → ℕ → Call
  gets : Key → ℕ → Call
  increments : Key → Int64 → Int64 → Option (Bytes → ByteView) → ℕ → ℕ → Call
  removes : Key → Call
  clears : (ℕ → ℕ) → Call

-- The sizes that a call can store stay, with the limit, below 2 ^ 63; a number has up to 20 characters.
abbrev pub IsSmall : Int64 → Call → Type 0
IsSmall max (adds key value ttl now) = max + (length key + length value.b) < half
IsSmall max (increments key delta ttl none now later) = max + (length key + 20) < half
IsSmall max (increments key delta ttl (some make) now later) =
    (raw : Bytes) → length raw ≤ 20 → max + (length key + length (make raw).b) < half
IsSmall max _ = Unit {0}

module _ {F : Type 0} ⦃r : Ratio F⦄ where
  unfoldable pub step : Store F → Call → Option (Store F)
  step c (adds key value ttl now) = add_with_ttl c key value ttl now
  step c (gets key now) = some (get c key now).0
  step c (increments key delta ttl make now later) = do
    done ← increment c key delta ttl make now later
    some done.0
  step c (removes key) = some (remove c key)
  step c (clears clock) = some (clearup_expired c clock)

  unfoldable pub run : Store F → List Call → Option (Store F)
  run c [] = some c
  run c (call ∷ calls) = do c' ← step c call; run c' calls

  -- The cache in use is valid and within its limits.
  abbrev pub LocalIsGood : Int64 → F → LocalCache F → Type 0
  LocalIsGood max ratio (lru l) = LruRuns.IsGood max l
  LocalIsGood max ratio (slru l) = SlruGood.IsGood max (effective ratio) l

  abbrev pub StoredIsGood : Int64 → F → Option (LocalCache F) → Type 0
  StoredIsGood max ratio none = Unit
  StoredIsGood max ratio (some s) = LocalIsGood max ratio s

  pub record IsGood (max : Int64) (ratio : F) (c : Store F) : Type 0 where
    pub stored : StoredIsGood max ratio c.store
    pub cache_bytes : c.cache_bytes ≡ max
    pub protected_ratio : c.slru_protected_ratio ≡ ratio

  -- An operation that returns, and leaves a good cache.
  abbrev pub Returns : Int64 → F → Option (LocalCache F) → Type 0
  Returns max ratio result = (s : LocalCache F) × (result ≡ some s) × LocalIsGood max ratio s

  pub local_add-Returns :
      (max : Int64) (ratio : F) (s : LocalCache F) (key : Key) (value : ByteView) (ttl : Int64)
      (now : ℕ)
      → AreLimits max (effective ratio)
      → max + (length key + length value.b) < half
      → LocalIsGood max ratio s
      → Returns max ratio (local_add_with_ttl s key value ttl now)
  unfolding local_add_with_ttl LruRuns.step SlruRuns.step view_Value len
  local_add-Returns max ratio (lru l) key value ttl now m small g =
      let (l', e, g') =
        LruRuns.step-IsGood max l (LruRuns.adds key value ttl now) m.positive small g in
      (lru l', rw (e, ◌>>=◌) refl, g')
  local_add-Returns max ratio (slru l) key value ttl now m small g = (
    slru (Slru.add_with_ttl l key value ttl now),
    refl,
    SlruRuns.step-IsGood max (effective ratio) l (SlruRuns.adds key value ttl now) m small g,
  )

  pub local_get-IsGood :
      (max : Int64) (ratio : F) (s : LocalCache F) (key : Key) (now : ℕ)
      → AreLimits max (effective ratio)
      → LocalIsGood max ratio s
      → LocalIsGood max ratio (local_get s key now).0
  unfolding local_get LruRuns.step SlruRuns.step
  local_get-IsGood max ratio (lru l) key now m g =
      LruRuns.step_to max l _ (LruRuns.gets key now) m.positive tt refl g
  local_get-IsGood max ratio (slru l) key now m g =
      SlruRuns.step-IsGood max (effective ratio) l (SlruRuns.gets key now) m tt g

  pub local_remove-IsGood :
      (max : Int64) (ratio : F) (s : LocalCache F) (key : Key)
      → AreLimits max (effective ratio)
      → LocalIsGood max ratio s
      → LocalIsGood max ratio (local_remove s key)
  unfolding local_remove LruRuns.step SlruRuns.step
  local_remove-IsGood max ratio (lru l) key m g =
      LruRuns.step_to max l _ (LruRuns.removes key) m.positive tt refl g
  local_remove-IsGood max ratio (slru l) key m g =
      SlruRuns.step-IsGood max (effective ratio) l (SlruRuns.removes key) m tt g

  pub local_expire-IsGood :
      (max : Int64) (ratio : F) (s : LocalCache F) (clock : ℕ → ℕ)
      → AreLimits max (effective ratio)
      → LocalIsGood max ratio s
      → LocalIsGood max ratio (local_remove_expired s clock)
  unfolding local_remove_expired LruRuns.step SlruRuns.step
  local_expire-IsGood max ratio (lru l) clock m g =
      LruRuns.step_to max l _ (LruRuns.removes_expired clock) m.positive tt refl g
  local_expire-IsGood max ratio (slru l) clock m g =
      SlruRuns.step-IsGood max (effective ratio) l (SlruRuns.removes_expired (clock 0)) m tt g

  -- The new cache that the first write makes.
  fresh-IsGood :
      (max : Int64) (ratio : F) (c : Store F)
      → AreLimits max (effective ratio)
      → c.cache_bytes ≡ max
      → c.slru_protected_ratio ≡ ratio
      → LocalIsGood max ratio (fresh c)
  unfolding fresh LruRuns.run SlruRuns.run
  fresh-IsGood max ratio c m e f = elim (Bool-cases c.use_slru) [
    | inl s ↦ rw (s, e, f) (SlruRuns.run_slru-IsGood max ratio true [] m tt)
    | inr s ↦
        let (l, i, g) = LruRuns.run-new-IsGood max true [] m.positive tt in
        rw (s, e) (subst (LruRuns.IsGood max) (some-injective _ _ (sym i)) g)
  ]

  pub ensure_store-IsGood :
      (max : Int64) (ratio : F) (c : Store F)
      → AreLimits max (effective ratio)
      → IsGood max ratio c
      → LocalIsGood max ratio (ensure_store c)
  unfolding ensure_store
  ensure_store-IsGood max ratio c m g = elim (Option-cases c.store) [
    | inl e ↦ rw (ensure_store, e) (fresh-IsGood max ratio c m g.cache_bytes g.protected_ratio)
    | inr (s, e) ↦ rw (ensure_store, e) (subst (StoredIsGood max ratio) e g.stored)
  ]

  -- A write returns and keeps the cache good.
  abbrev pub StepReturns : Int64 → F → Option (Store F) → Type 0
  StepReturns max ratio result = (c : Store F) × (result ≡ some c) × IsGood max ratio c

  pub add-StepReturns :
      (max : Int64) (ratio : F) (c : Store F) (key : Key) (value : ByteView) (ttl : Int64) (now : ℕ)
      → AreLimits max (effective ratio)
      → max + (length key + length value.b) < half
      → IsGood max ratio c
      → StepReturns max ratio (add_with_ttl c key value ttl now)
  unfolding add_with_ttl
  add-StepReturns max ratio c key value ttl now m small g =
      let (s, e, h) =
        local_add-Returns max ratio (ensure_store c) key value ttl now m small
          (ensure_store-IsGood max ratio c m g) in
      (
        record c { store = some s },
        rw (e, ◌>>=◌) refl,
        record { stored = h; cache_bytes = g.cache_bytes; protected_ratio = g.protected_ratio },
      )
