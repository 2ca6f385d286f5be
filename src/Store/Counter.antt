-- ===== src/Store/Counter.antt =====
-- A counter in an LRU cache: `increment`, and the read that follows.
use cachecore.Base.{
  ℕ, ◌+◌, ◌<◌, ◌≤◌, ◌≡◌, refl, ◌∙◌, inr, false, Option, some, arith, length, ◌>>=◌,
}
use cachecore.Expiry.{passed, deadline}
use cachecore.Go.Bytes.{Bytes, Key}
use cachecore.Go.Int64
use cachecore.Go.Int64.{Int64, half, add-lt}
use cachecore.Go.Numbers.{format_int}
use cachecore.Go.Numbers.Printing.{length-format_int}
use cachecore.Lru
use cachecore.Lru.Add.{add_with_ttl-Added}
use cachecore.Lru.Reads.{answer, get-peek}
use cachecore.Lru.Runs as LruRuns
use cachecore.Slru.{Ratio}
use cachecore.Store.{
  lru, Store, counted, ensure_store, local_add_with_ttl, local_get, get, increment, current,
}
use cachecore.Store.Histories.{made, increment_counted}
use cachecore.View.{ByteView, view_Value, len}

lru_get-IsGood :
    (max : Int64) (l : Lru.Cache ByteView) (key : Key) (now : ℕ)
    → 0 < max
    → LruRuns.IsGood max l
    → LruRuns.IsGood max (Lru.get l key now).0
unfolding LruRuns.step
lru_get-IsGood max l key now p g = LruRuns.step_to max l _ (LruRuns.gets key now) p tt refl g

module _ {F : Type 0} ⦃r : Ratio F⦄ where
  -- When the store is a valid LRU cache within its positive limit, which with the key and 20 bytes
  -- stays below 2 ^ 63 and has room for these, the key is absent or holds a number n, and the
  -- function for views, if one is given, makes no more than 20 bytes of up to 20 characters, as
  -- stampActiveValue does, `increment` returns n + delta, with wrap-around, and until its time has
  -- passed the next `get` of the key finds exactly the view that the function makes of the
  -- characters of that number, or one of these characters themselves.
  pub increment-get :
      (max : Int64) (c : Store F) (l : Lru.Cache ByteView) (key : Key) (delta ttl n : Int64)
      (make : Option (Bytes → ByteView)) (now later at : ℕ)
      → c.store ≡ some (lru l)
      → LruRuns.IsGood max l
      → 0 < max
      → max + (length key + 20) < half
      → length key + 20 ≤ max
      → ((raw : Bytes) → length raw ≤ 20 → length (made make raw).b ≤ 20)
      → current (Lru.get l key now).1 ≡ some n
      → passed (deadline ttl later) at ≡ false
      → (after : Store F) × (increment c key delta ttl make now later
          ≡ some (after, counted (Int64.add n delta)))
        × ((get after key at).1 ≡ some (made make (format_int (Int64.add n delta))))
  unfolding get local_get local_add_with_ttl ensure_store view_Value len answer
  increment-get max c l key delta ttl n make now later at e g pos small room brief old live =
      let next = Int64.add n delta in
      let value : ByteView = made make (format_int next) in
      let l1 = (Lru.get l key now).0 in
      let g1 = lru_get-IsGood max l key now pos g in
      let short = brief (format_int next) (length-format_int next (add-lt n delta)) in
      let a =
        add_with_ttl-Added l1 key value ttl later g1.valid (omega (arith, g1.limit, small))
          (omega (arith, g1.within, small, short)) (inr (omega (arith, g1.limit, room, short))) in
      let after : Store F = record c { store = some (lru a.after) } in
      let done : local_add_with_ttl (local_get (ensure_store c) key now).0 key value ttl later
          ≡ some (lru a.after) =
        rw (ensure_store, e, a.ends, ◌>>=◌) refl in
      (
        after,
        increment_counted c key delta ttl make now later n _ (rw (ensure_store, e) old) done,
        get-peek a.after key at a.valid ∙ rw (a.present, live) refl,
      )
