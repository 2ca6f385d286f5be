-- ===== src/Lru/Methods.antt =====
-- `Get`, the storing half of `AddWithTTL`, and `RemoveExpired`, and the invariant of the LRU cache.
use cachecore.Base.{
  ℕ, suc, Bool, refl, inl, inr, List, [], ◌∷◌, reverse, arith, Option-cases, Bool-cases,
}
use cachecore.Expiry.{Value, passed}
use cachecore.Go.Bytes.{Key}
use cachecore.Go.Int64.{Int64, of_nat}
use cachecore.Go.LinkedList.{Element, id_of, total}
use cachecore.Go.Map
use cachecore.Lru.{Entry, Cache, get, store, visit, sweep, remove_expired, new}
use cachecore.Lru.Invariant.{
  IsValid, found, remove-IsValid, touch-IsValid, update-IsValid, insert-IsValid,
}

module _ {V : Type 0} ⦃v : Value V⦄ where
  pub new-IsValid :
      (max_bytes : Int64) (on_evicted : Bool) → IsValid (new {V = V} max_bytes on_evicted)
  unfolding new Map.lookup id_of total of_nat
  new-IsValid max_bytes on_evicted = record {
    distinct = tt;
    index = λ k. refl;
    counted = refl;
    fresh = tt;
  }

  pub get-IsValid : (c : Cache V) (key : Key) (now : ℕ) → IsValid c → IsValid (get c key now).0
  unfolding get
  get-IsValid c key now h = elim (Option-cases (Map.lookup key c.cache)) [
    | inl miss ↦ rw (miss, get) h
    | inr (i, hit) ↦
        let (e, p, q) = found h key i hit in
        elim (Bool-cases (passed e.expire_at now)) [
          | inl old ↦ rw (hit, get, p, old) (remove-IsValid h key)
          | inr live ↦ rw (hit, get, p, live) (touch-IsValid h i)
        ]
  ]

  pub store-IsValid :
      (c : Cache V) (key : Key) (value : V) (ttl : Int64) (now : ℕ)
      → IsValid c
      → IsValid (store c key value ttl now)
  unfolding store
  store-IsValid c key value ttl now h = elim (Option-cases (Map.lookup key c.cache)) [
    | inl miss ↦ rw (miss, store) (insert-IsValid h key value ttl now miss)
    | inr (i, hit) ↦
        let (e, p, q) = found h key i hit in
        rw (hit, store, p) (update-IsValid h i e value ttl now p)
  ]

  pub visit-IsValid :
      (c : Cache V) (e : Element (Entry V)) (now : ℕ) → IsValid c → IsValid (visit c e now)
  unfolding visit
  visit-IsValid c e now h = ground (arith, remove-IsValid h e.value.key)

  sweep-IsValid :
      (clock : ℕ → ℕ) (n : ℕ) (l : List (Element (Entry V))) (c : Cache V)
      → IsValid c
      → IsValid (sweep clock n l c)
  unfolding sweep
  sweep-IsValid clock n [] c h = h
  sweep-IsValid clock n (e ∷ l) c h =
      sweep-IsValid clock (suc n) l (visit c e (clock n)) (visit-IsValid c e (clock n) h)

  pub remove_expired-IsValid :
      (c : Cache V) (clock : ℕ → ℕ) → IsValid c → IsValid (remove_expired c clock)
  unfolding remove_expired
  remove_expired-IsValid c clock h = sweep-IsValid clock 0 (reverse c.ll) c h
