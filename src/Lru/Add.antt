-- ===== src/Lru/Add.antt =====
-- `AddWithTTL` as a whole: that it ends, what it keeps, and when it does not end.
use cachecore.Base.{
  ℕ, zero, suc, ◌+◌, ◌<◌, ◌≤◌, ◌≡◌, refl, sym, ◌∙◌, ap, ite, ◌⊎◌, inl, inr, true, List, [], ◌∷◌,
  ◌++◌, Option, none, some, arith, length, Option-cases, ◌≢◌, if◌then◌else◌, subst,
}
use cachecore.Expiry.{Value, deadline}
use cachecore.Go.Bytes.{Key, key_dec}
use cachecore.Go.Int64.{Int64, half, modulus, slt_negative, of_nat_small}
use cachecore.Go.LinkedList
use cachecore.Go.LinkedList.{
  Element, value_of, push_front, find, total, back, total-remove, find-remove,
  move_to_front-push_front, set_value-push_front, back-eq-some, total-append, or_else, find-append,
  find-append_right, Distinct,
}
use cachecore.Lru.{
  Entry, Cache, entry_key, discard, remove_oldest, insert, update, store, is_over, shrink,
  add_with_ttl,
}
use cachecore.Lru.Invariant.{size, IsValid, remove_oldest-IsValid}
use cachecore.Lru.Methods.{store-IsValid}
use cachecore.Lru.Reads.{locate}
use cachecore.Lru.Shrink.{Shrunk, Fits, IsTight, report, shrink-Shrunk}

module _ {V : Type 0} ⦃v : Value V⦄ where
  -- The entry that a call of `AddWithTTL` stores.
  abbrev pub stored : Key → V → Int64 → ℕ → Entry V
  stored key value ttl now = record { key = key; value = value; expire_at = deadline ttl now }

  -- The entry stands in front, the others follow, and no bigger is the cache than that.
  pub record Stores (c c' : Cache V) (kv : Entry V) : Type 0 where
    pub id : ℕ
    pub rest : List (Element (Entry V))
    pub front : c'.ll ≡ push_front id kv rest
    pub others :
        (j : Key)
        → find entry_key j c'.ll ≡ ite (key_dec kv.key j) (some kv) (find entry_key j c.ll)
    pub bounded : total size c'.ll ≤ total size c.ll + size kv
    pub max_bytes : c'.max_bytes ≡ c.max_bytes
    pub evicted : c'.evicted ≡ c.evicted
    pub on_evicted : c'.on_evicted ≡ c.on_evicted

  pub store-Stores :
      (c : Cache V) (key : Key) (value : V) (ttl : Int64) (now : ℕ)
      → IsValid c
      → Stores c (store c key value ttl now) (stored key value ttl now)
  unfolding store insert update find total
  store-Stores c key value ttl now h = elim (locate c key h) [
    | inl (miss, absent) ↦
        rw (miss, store)
          (record {
            id = c.next_id;
            rest = c.ll;
            front = refl;
            others = λ j. refl;
            bounded = omega arith;
            max_bytes = refl;
            evicted = refl;
            on_evicted = refl;
          })
    | inr (i, e, hit, p, q, present) ↦
        rw (hit, store, p, update, move_to_front-push_front i e c.ll p, set_value-push_front)
          (record {
            id = i;
            rest = LinkedList.remove i c.ll;
            front = ground arith;
            others = λ j. ground (arith, find-remove entry_key c.ll i e j h.distinct p);
            bounded = omega (arith, total-remove size i e c.ll p);
            max_bytes = refl;
            evicted = refl;
            on_evicted = refl;
          })
  ]

  -- With a limit that is not negative and sizes below 2 ^ 63, `AddWithTTL` returns.
  pub add_with_ttl-Shrunk :
      (c : Cache V) (key : Key) (value : V) (ttl : Int64) (now : ℕ)
      → IsValid c
      → c.max_bytes < half
      → total size c.ll + (length key + v.len value) < half
      → Shrunk (store c key value ttl now) (add_with_ttl c key value ttl now)
  unfolding add_with_ttl
  add_with_ttl-Shrunk c key value ttl now h m t =
      let s = store-Stores c key value ttl now h in
      shrink-Shrunk _ _ (store-IsValid c key value ttl now h) (rw s.max_bytes m)
        (omega (arith, s.bounded)) (omega arith)

  pub remove_oldest_bounds :
      (c : Cache V)
      → IsValid c
      → (total size (remove_oldest c).ll ≤ total size c.ll)
        × ((remove_oldest c).max_bytes ≡ c.max_bytes)
  unfolding remove_oldest discard
  remove_oldest_bounds c h = elim (Option-cases (back c.ll)) [
    | inl empty ↦ rw (empty, remove_oldest) (omega arith)
    | inr (e, last) ↦
        rw (last, remove_oldest)
          (
            omega (
              arith,
              total-remove size e.id e.value c.ll (back-eq-some entry_key c.ll e h.distinct last).0,
            ),
            refl,
          )
  ]

  negative_is_over :
      (c : Cache V)
      → IsValid c
      → half ≤ c.max_bytes
      → c.max_bytes < modulus
      → total size c.ll < half
      → is_over c ≡ true
  unfolding is_over
  negative_is_over c h neg m t =
      rw
        (
          h.counted,
          of_nat_small (total size c.ll) (omega arith),
          slt_negative (total size c.ll) c.max_bytes t neg m,
        )
        (ground arith)

  -- A negative limit: the loop has nothing left to remove, and goes on.
  shrink_endless :
      (fuel : ℕ) (c : Cache V)
      → IsValid c
      → half ≤ c.max_bytes
      → c.max_bytes < modulus
      → total size c.ll < half
      → shrink fuel c ≡ none
  unfolding shrink
  shrink_endless zero c h neg m t = refl
  shrink_endless (suc fuel) c h neg m t =
      let (lighter, same) = remove_oldest_bounds c h in
      rw (negative_is_over c h neg m t, shrink)
        (shrink_endless fuel (remove_oldest c) (remove_oldest-IsValid h) (omega (arith, same))
          (omega (arith, same)) (omega (arith, lighter)))

  -- In a valid cache with a negative limit and sizes below 2 ^ 63 the loop of `AddWithTTL` does
  -- not end, however often it goes round.
  pub add_endless :
      (c : Cache V) (key : Key) (value : V) (ttl : Int64) (now : ℕ) (fuel : ℕ)
      → IsValid c
      → half ≤ c.max_bytes
      → c.max_bytes < modulus
      → total size c.ll + (length key + v.len value) < half
      → shrink fuel (store c key value ttl now) ≡ none
  add_endless c key value ttl now fuel h neg m t =
      let s = store-Stores c key value ttl now h in
      shrink_endless fuel _ (store-IsValid c key value ttl now h) (omega (arith, s.max_bytes))
        (omega (arith, s.max_bytes)) (omega (arith, s.bounded))

  -- The front of a list outlives a drop from the back, if it fits on its own.
  front_kept :
      (max : ℕ) (e : Element (Entry V)) (l kept d : List (Element (Entry V)))
      → e ∷ l ≡ kept ++ d
      → IsTight max kept d
      → (d ≡ []) ⊎ (size e.value ≤ max)
      → (rest : List (Element (Entry V))) × (kept ≡ e ∷ rest)
  unfolding total
  front_kept max e l [] [] p t h = cc
  front_kept max e l [] (x ∷ d) p t (inl z) = cc
  front_kept max e l [] (x ∷ d) p t (inr h) = absurd (ground arith)
  front_kept max e l (x ∷ kept) d p t h = (kept, ground arith)

  -- The outcome of `AddWithTTL`: what it stored is there, and every other entry of before is either
  -- kept as it was or evicted and reported.
  pub record Added (c : Cache V) (kv : Entry V) (result : Option (Cache V)) : Type 0 where
    pub after : Cache V
    pub dropped : List (Element (Entry V))
    pub ends : result ≡ some after
    pub valid : IsValid after
    pub fits : Fits after
    pub present : find entry_key kv.key after.ll ≡ some kv
    pub others :
        (j : Key)
        → kv.key ≢ j
        → find entry_key j c.ll ≡ or_else (find entry_key j after.ll) (find entry_key j dropped)
    pub gone :
        (j : Key) (e : Entry V)
        → find entry_key j dropped ≡ some e
        → find entry_key j after.ll ≡ none
    pub reported : after.evicted ≡ (if c.on_evicted then c.evicted ++ report dropped else c.evicted)
    pub max_bytes : after.max_bytes ≡ c.max_bytes

  -- In a valid cache with a limit that is not negative, with sizes below 2 ^ 63, and for an entry
  -- that fits on its own, `AddWithTTL` returns a valid cache within its limit that holds the
  -- entry; every other entry is kept or dropped, and the dropped ones are reported.
  pub add_with_ttl-Added :
      (c : Cache V) (key : Key) (value : V) (ttl : Int64) (now : ℕ)
      → IsValid c
      → c.max_bytes < half
      → total size c.ll + (length key + v.len value) < half
      → (c.max_bytes ≡ 0) ⊎ (length key + v.len value ≤ c.max_bytes)
      → Added c (stored key value ttl now) (add_with_ttl c key value ttl now)
  unfolding find
  add_with_ttl-Added c key value ttl now h m t room =
      let kv : Entry V = stored key value ttl now in
      let s = store-Stores c key value ttl now h in
      let r = add_with_ttl-Shrunk c key value ttl now h m t in
      let split : push_front s.id kv s.rest ≡ r.after.ll ++ r.dropped =
        sym s.front ∙ r.drops.kept in
      let (rest, first) =
        front_kept _ _ s.rest r.after.ll r.dropped split r.tight
          (ground (arith, r.unlimited, s.max_bytes)) in
      record {
        after = r.after;
        dropped = r.dropped;
        ends = r.ends;
        valid = r.valid;
        fits = r.fits;
        present = rw first (ground arith);
        others = λ j n. ground (
          arith,
          s.others j,
          ap (find entry_key j) r.drops.kept,
          find-append entry_key j r.after.ll r.dropped,
        );
        gone = λ j e p.
            find-append_right entry_key j r.after.ll r.dropped {a = e}
              (subst (Distinct entry_key) r.drops.kept
                (store-IsValid c key value ttl now h).distinct)
              p;
        reported = ground (arith, r.drops.logged, s.evicted, s.on_evicted);
        max_bytes = r.drops.max_bytes ∙ s.max_bytes;
      }
