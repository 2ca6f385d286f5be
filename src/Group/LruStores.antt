-- ===== src/Group/LruStores.antt =====
-- An LRU store as a cache that reads back what it has room for.
use cachecore.Base.{
  ℕ, ◌+◌, ◌<◌, ◌≤◌, ◌≡◌, refl, ap, ◌∙◌, inr, none, some, arith, if◌then◌else◌, length, ◌>>=◌,
}
use cachecore.Expiry.{passed, deadline}
use cachecore.Go.Bytes.{Key}
use cachecore.Go.Int64.{Int64, half}
use cachecore.Group.Caches.{store_CacheOps}
use cachecore.Group.Rereads.{ReadsBack}
use cachecore.Lru
use cachecore.Lru.Add.{add_with_ttl-Added}
use cachecore.Lru.Reads.{answer, get-peek}
use cachecore.Lru.Runs as LruRuns
use cachecore.Slru.{Ratio}
use cachecore.Store
use cachecore.Store.{lru, Store, ensure_store, local_add_with_ttl, local_get}
use cachecore.View.{ByteView, view_Value, len}

module _ {F : Type 0} ⦃r : Ratio F⦄ where
  -- The store is, or is made as, a valid LRU cache within its positive limit, and the entry fits.
  abbrev pub HasRoom : Store F → Key → ByteView → Type 0
  HasRoom s key value =
      (l : Lru.Cache ByteView) × (ensure_store s ≡ lru l)
      × LruRuns.IsGood l.max_bytes l
      × (l.max_bytes + (length key + len value) < half)
      × (length key + len value ≤ l.max_bytes)

  pub get-add_with_ttl :
      (s : Store F) (key : Key) (value : ByteView) (ttl : Int64) (now at : ℕ)
      → HasRoom s key value
      → (s1 s2 : Store F) × (Store.add_with_ttl s key value ttl now ≡ some s1)
        × (some (Store.get s1 key at)
            ≡ some (s2, if passed (deadline ttl now) at then none else some value))
  unfolding Store.add_with_ttl Store.get local_get local_add_with_ttl view_Value answer
  get-add_with_ttl s key value ttl now at (l, e, g, small, room) =
      let a =
        add_with_ttl-Added l key value ttl now g.valid (omega (arith, small))
          (omega (arith, g.within, small)) (inr room) in
      let s1 : Store F = record s { store = some (lru a.after) } in
      let s2 : Store F = record s { store = some (lru (Lru.get a.after key at).0) } in
      let found : (Lru.get a.after key at).1
          ≡ (if passed (deadline ttl now) at then none else some value) =
        get-peek a.after key at a.valid ∙ rw a.present refl in
      (s1, s2, rw (local_add_with_ttl, e, a.ends, ◌>>=◌) refl, ap (λ v. some (s2, v)) found)

  unfoldable pub lru_ReadsBack : ReadsBack (Store F)
  unfolding store_CacheOps
  lru_ReadsBack = record { HasRoom = HasRoom; get-add_with_ttl = get-add_with_ttl }
