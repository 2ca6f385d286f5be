-- ===== src/Store/Histories.antt =====
-- Whole histories of calls of a cache of views, `increment` included.
use cachecore.Base.{
  ℕ, ◌+◌, ◌<◌, ◌≡◌, refl, subst, inl, inr, Bool, List, [], ◌∷◌, Option, none, some, arith, length,
  ◌>>=◌, All, Option-cases,
}
use cachecore.Go.Bytes.{Bytes, Key}
use cachecore.Go.Int64
use cachecore.Go.Int64.{Int64, half, modulus, add-lt}
use cachecore.Go.Numbers.{format_int}
use cachecore.Go.Numbers.Printing.{length-format_int}
use cachecore.Slru.{Ratio}
use cachecore.Slru.Good.{AreLimits, effective}
use cachecore.Store.{
  LocalCache, Store, failed, counted, non_numeric_value, ensure_store, local_add_with_ttl,
  local_get, local_remove, local_remove_expired, get, increment, remove, clearup_expired, current,
  new,
}
use cachecore.Store.Runs.{
  Call, adds, gets, increments, removes, clears, IsSmall, step, run, LocalIsGood, StoredIsGood,
  IsGood, StepReturns, local_add-Returns, local_get-IsGood, local_remove-IsGood,
  local_expire-IsGood, ensure_store-IsGood, add-StepReturns,
}
use cachecore.View.{ByteView, view}

-- What `increment` stores for a number.
abbrev pub made : Option (Bytes → ByteView) → Bytes → ByteView
made none raw = view raw
made (some f) raw = f raw

made_small :
    (max : Int64) (key : Key) (delta ttl : Int64) (make : Option (Bytes → ByteView))
    (now later n : ℕ)
    → IsSmall max (increments key delta ttl make now later)
    → n < modulus
    → max + (length key + length (made make (format_int n)).b) < half
made_small max key delta ttl none now later n small p = omega (arith, length-format_int n p)
made_small max key delta ttl (some f) now later n small p =
    small (format_int n) (length-format_int n p)

module _ {F : Type 0} ⦃r : Ratio F⦄ where
  with_store-IsGood :
      (max : Int64) (ratio : F) (c : Store F) (s : LocalCache F)
      → IsGood max ratio c
      → LocalIsGood max ratio s
      → IsGood max ratio (record c { store = some s })
  with_store-IsGood max ratio c s g h = record {
    stored = h;
    cache_bytes = g.cache_bytes;
    protected_ratio = g.protected_ratio;
  }

  -- The branches of `increment`.
  pub increment_failed :
      (c : Store F) (key : Key) (delta ttl : Int64) (make : Option (Bytes → ByteView))
      (now later : ℕ)
      → current (local_get (ensure_store c) key now).1 ≡ none
      → increment c key delta ttl make now later
        ≡ some (
          record c { store = some (local_get (ensure_store c) key now).0 },
          failed non_numeric_value,
        )
  unfolding increment
  increment_failed c key delta ttl make now later e = rw (increment, e) refl

  pub increment_counted :
      (c : Store F) (key : Key) (delta ttl : Int64) (make : Option (Bytes → ByteView))
      (now later : ℕ) (n : Int64) (t : LocalCache F)
      → current (local_get (ensure_store c) key now).1 ≡ some n
      → local_add_with_ttl
          (local_get (ensure_store c) key now).0
          key
          (made make (format_int (Int64.add n delta)))
          ttl
          later
        ≡ some t
      → increment c key delta ttl make now later
        ≡ some (record c { store = some t }, counted (Int64.add n delta))
  unfolding increment
  increment_counted c key delta ttl none now later n t e f = rw (increment, e, f, ◌>>=◌) refl
  increment_counted c key delta ttl (some make) now later n t e f = rw (increment, e, f, ◌>>=◌) refl

  increment-StepReturns :
      (max : Int64) (ratio : F) (c : Store F) (key : Key) (delta ttl : Int64)
      (make : Option (Bytes → ByteView)) (now later : ℕ)
      → AreLimits max (effective ratio)
      → IsSmall max (increments key delta ttl make now later)
      → IsGood max ratio c
      → StepReturns max ratio (step c (increments key delta ttl make now later))
  unfolding step
  increment-StepReturns max ratio c key delta ttl make now later m small g =
      let s = (local_get (ensure_store c) key now).0 in
      let h : LocalIsGood max ratio s =
        local_get-IsGood max ratio (ensure_store c) key now m
          (ensure_store-IsGood max ratio c m g) in
      elim (Option-cases (current (local_get (ensure_store c) key now).1)) [
        | inl e ↦ (
          record c { store = some s },
          rw (increment_failed c key delta ttl make now later e, ◌>>=◌) refl,
          with_store-IsGood max ratio c s g h,
        )
        | inr (n, e) ↦
            let (t, f, i) =
              local_add-Returns max ratio s key (made make (format_int (Int64.add n delta))) ttl
                later m
                (made_small max key delta ttl make now later (Int64.add n delta) small
                  (add-lt n delta))
                h in
            (
              record c { store = some t },
              rw (increment_counted c key delta ttl make now later n t e f, ◌>>=◌) refl,
              with_store-IsGood max ratio c t g i,
            )
      ]

  pub step-StepReturns :
      (max : Int64) (ratio : F) (c : Store F) (call : Call)
      → AreLimits max (effective ratio)
      → IsSmall max call
      → IsGood max ratio c
      → StepReturns max ratio (step c call)
  unfolding step get remove clearup_expired
  step-StepReturns max ratio c (adds key value ttl now) m small g =
      add-StepReturns max ratio c key value ttl now m small g
  step-StepReturns max ratio c (increments key delta ttl make now later) m small g =
      increment-StepReturns max ratio c key delta ttl make now later m small g
  step-StepReturns max ratio c (gets key now) m small g = elim (Option-cases c.store) [
    | inl e ↦ (c, simp (get, e) refl, g)
    | inr (s, e) ↦
        let h =
          local_get-IsGood max ratio s key now m (subst (StoredIsGood max ratio) e g.stored) in
        (_, rw (get, e) refl, with_store-IsGood max ratio c (local_get s key now).0 g h)
  ]
  step-StepReturns max ratio c (removes key) m small g = elim (Option-cases c.store) [
    | inl e ↦ (c, simp (remove, e) refl, g)
    | inr (s, e) ↦
        let h = local_remove-IsGood max ratio s key m (subst (StoredIsGood max ratio) e g.stored) in
        (_, rw (remove, e) refl, with_store-IsGood max ratio c (local_remove s key) g h)
  ]
  step-StepReturns max ratio c (clears clock) m small g = elim (Option-cases c.store) [
    | inl e ↦ (c, simp (clearup_expired, e) refl, g)
    | inr (s, e) ↦
        let h =
          local_expire-IsGood max ratio s clock m (subst (StoredIsGood max ratio) e g.stored) in
        (
          _,
          rw (clearup_expired, e) refl,
          with_store-IsGood max ratio c (local_remove_expired s clock) g h,
        )
  ]

  run-StepReturns :
      (max : Int64) (ratio : F) (calls : List Call) (c : Store F)
      → AreLimits max (effective ratio)
      → All (IsSmall max) calls
      → IsGood max ratio c
      → StepReturns max ratio (run c calls)
  unfolding run
  run-StepReturns max ratio [] c m small g = (c, refl, g)
  run-StepReturns max ratio (call ∷ calls) c m small g =
      let (c1, e1, g1) = step-StepReturns max ratio c call m small.0 g in
      let (c2, e2, g2) = run-StepReturns max ratio calls c1 m small.1 g1 in
      (c2, rw (e1, ◌>>=◌) e2, g2)

  -- Every history of calls of a new cache of views returns, `increment` included, and leaves the
  -- underlying LRU or SLRU cache, whichever is configured, valid and within its limits. The limit
  -- is positive, with what a call can store it stays below 2 ^ 63, and its product with the ratio
  -- is a word.
  pub run-new-StepReturns :
      (max : Int64) (ratio : F) (has_on_evicted use_slru : Bool) (calls : List Call)
      → AreLimits max (effective ratio)
      → All (IsSmall max) calls
      → StepReturns max ratio (run (new max has_on_evicted use_slru ratio) calls)
  unfolding new
  run-new-StepReturns max ratio has_on_evicted use_slru calls m small =
      run-StepReturns max ratio calls (new max has_on_evicted use_slru ratio) m small
        (record { stored = tt; cache_bytes = refl; protected_ratio = refl })
