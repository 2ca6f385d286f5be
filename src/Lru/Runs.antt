-- ===== src/Lru/Runs.antt =====
-- Whole histories of calls of the LRU cache.
use cachecore.Base.{
  ℕ, ◌+◌, ◌<◌, ◌≤◌, ◌≡◌, refl, sym, ◌∙◌, inl, inr, Bool, List, [], ◌∷◌, Option, some,
  some-injective, subst, arith, reverse, suc, length, All, ◌>>=◌,
}
use cachecore.Expiry.{Value}
use cachecore.Go.Bytes.{Key}
use cachecore.Go.Int64.{Int64, half}
use cachecore.Go.LinkedList.{Element, total, total-remove, value_of, move_to_front-push_front}
use cachecore.Lru.{
  Entry, Cache, new, get, remove, remove_oldest, discard, add_with_ttl, remove_expired, sweep,
  visit, touch,
}
use cachecore.Lru.Invariant.{
  size, IsValid, remove-IsValid, remove_oldest-IsValid, touch-move_to_front,
}
use cachecore.Lru.Methods.{new-IsValid, get-IsValid, visit-IsValid, remove_expired-IsValid}
use cachecore.Lru.Reads.{locate}
use cachecore.Lru.Add.{add_with_ttl-Shrunk, store-Stores, remove_oldest_bounds}

pub data Call (V : Type 0) : Type 0 where
  gets : Key → ℕ → Call V
  adds : Key → V → Int64 → ℕ → Call V
  removes : Key → Call V
  removes_oldest : Call V
  removes_expired : (ℕ → ℕ) → Call V

module _ {V : Type 0} ⦃v : Value V⦄ where
  unfoldable pub step : Cache V → Call V → Option (Cache V)
  step c (gets key now) = some (get c key now).0
  step c (adds key value ttl now) = add_with_ttl c key value ttl now
  step c (removes key) = some (remove c key)
  step c removes_oldest = some (remove_oldest c)
  step c (removes_expired clock) = some (remove_expired c clock)

  unfoldable pub run : Cache V → List (Call V) → Option (Cache V)
  run c [] = some c
  run c (call ∷ calls) = do c' ← step c call; run c' calls

  -- The cache is valid and within its limit.
  pub record IsGood (max : Int64) (c : Cache V) : Type 0 where
    pub valid : IsValid c
    pub limit : c.max_bytes ≡ max
    pub within : total size c.ll ≤ max

  -- A stored value and the limit stay below 2 ^ 63 together.
  abbrev pub IsSmall : Int64 → Call V → Type 0
  IsSmall max (adds key value ttl now) = max + (length key + v.len value) < half
  IsSmall max _ = Unit {0}

  -- No bigger, under the same limit.
  abbrev Lighter : Cache V → Cache V → Type 0
  Lighter c c' = (total size c'.ll ≤ total size c.ll) × (c'.max_bytes ≡ c.max_bytes)

  remove-Lighter : (c : Cache V) (key : Key) → IsValid c → Lighter c (remove c key)
  unfolding remove discard
  remove-Lighter c key h = elim (locate c key h) [
    | inl (miss, _) ↦ rw (miss, remove) (omega arith)
    | inr (i, e, hit, p, q, _) ↦
        rw (hit, remove, p) (omega (arith, total-remove size i e c.ll p), refl)
  ]

  touch-Lighter :
      (c : Cache V) (i : ℕ) (e : Entry V) → value_of i c.ll ≡ some e → Lighter c (touch c i)
  unfolding total
  touch-Lighter c i e p =
      rw (touch-move_to_front, move_to_front-push_front i e c.ll p)
        (omega (arith, total-remove size i e c.ll p), refl)

  get-Lighter : (c : Cache V) (key : Key) (now : ℕ) → IsValid c → Lighter c (get c key now).0
  unfolding get
  get-Lighter c key now h = elim (locate c key h) [
    | inl (miss, _) ↦ rw (miss, get) (omega arith)
    | inr (i, e, hit, p, q, _) ↦
        rw (hit, get, p) (ground (arith, remove-Lighter c key h, touch-Lighter c i e p))
  ]

  visit-Lighter :
      (c : Cache V) (e : Element (Entry V)) (now : ℕ) → IsValid c → Lighter c (visit c e now)
  unfolding visit
  visit-Lighter c e now h = ground (arith, remove-Lighter c e.value.key h)

  sweep-Lighter :
      (clock : ℕ → ℕ) (n : ℕ) (l : List (Element (Entry V))) (c : Cache V)
      → IsValid c
      → Lighter c (sweep clock n l c)
  unfolding sweep
  sweep-Lighter clock n [] c h = omega arith
  sweep-Lighter clock n (e ∷ l) c h =
      let a = visit-Lighter c e (clock n) h in
      let b = sweep-Lighter clock (suc n) l (visit c e (clock n)) (visit-IsValid c e (clock n) h) in
      (omega (arith, a, b), b.1 ∙ a.1)

  Lighter-IsGood :
      (max : Int64) (c c' : Cache V) → IsGood max c → IsValid c' → Lighter c c' → IsGood max c'
  Lighter-IsGood max c c' g h l = record {
    valid = h;
    limit = l.1 ∙ g.limit;
    within = omega (arith, l.0, g.within);
  }

  add-IsGood :
      (max : Int64) (c : Cache V) (key : Key) (value : V) (ttl : Int64) (now : ℕ)
      → 0 < max
      → IsSmall max (adds key value ttl now)
      → IsGood max c
      → (c' : Cache V) × (add_with_ttl c key value ttl now ≡ some c') × IsGood max c'
  add-IsGood max c key value ttl now pos small g =
      let s = store-Stores c key value ttl now g.valid in
      let r =
        add_with_ttl-Shrunk c key value ttl now g.valid (omega (arith, g.limit, small))
          (omega (arith, g.within, small)) in
      let limit = r.drops.max_bytes ∙ s.max_bytes ∙ g.limit in
      (
        r.after,
        r.ends,
        record { valid = r.valid; limit = limit; within = ground (arith, r.fits, limit) },
      )

  pub step-IsGood :
      (max : Int64) (c : Cache V) (call : Call V)
      → 0 < max
      → IsSmall max call
      → IsGood max c
      → (c' : Cache V) × (step c call ≡ some c') × IsGood max c'
  unfolding step remove_expired
  step-IsGood max c (adds key value ttl now) pos small g =
      add-IsGood max c key value ttl now pos small g
  step-IsGood max c (gets key now) pos small g = (
    (get c key now).0,
    refl,
    Lighter-IsGood max c _ g (get-IsValid c key now g.valid) (get-Lighter c key now g.valid),
  )
  step-IsGood max c (removes key) pos small g = (
    remove c key,
    refl,
    Lighter-IsGood max c _ g (remove-IsValid g.valid key) (remove-Lighter c key g.valid),
  )
  step-IsGood max c removes_oldest pos small g = (
    remove_oldest c,
    refl,
    Lighter-IsGood max c _ g (remove_oldest-IsValid g.valid) (remove_oldest_bounds c g.valid),
  )
  step-IsGood max c (removes_expired clock) pos small g = (
    remove_expired c clock,
    refl,
    Lighter-IsGood max c _ g (remove_expired-IsValid c clock g.valid)
        (sweep-Lighter clock 0 (reverse c.ll) c g.valid),
  )

  -- The same of a step whose result is known.
  pub step_to :
      (max : Int64) (l l' : Cache V) (call : Call V)
      → 0 < max
      → IsSmall max call
      → step l call ≡ some l'
      → IsGood max l
      → IsGood max l'
  step_to max l l' call p small e g =
      let (k, f, g') = step-IsGood max l call p small g in
      subst (IsGood max) (some-injective _ _ (sym f ∙ e)) g'

  run-IsGood :
      (max : Int64) (c : Cache V) (calls : List (Call V))
      → 0 < max
      → All (IsSmall max) calls
      → IsGood max c
      → (c' : Cache V) × (run c calls ≡ some c') × IsGood max c'
  unfolding run
  run-IsGood max c [] pos small g = (c, refl, g)
  run-IsGood max c (call ∷ calls) pos small g =
      let (c1, e, g1) = step-IsGood max c call pos small.0 g in
      let (c2, e2, g2) = run-IsGood max c1 calls pos small.1 g1 in (c2, rw (e, ◌>>=◌) e2, g2)

  -- Every history of calls of a new cache returns, whatever it stores and evicts, and leaves a
  -- valid cache whose entries are together no bigger than the limit. The limit is positive, and
  -- with the size of any stored entry stays below 2 ^ 63.
  pub run-new-IsGood :
      (max : Int64) (on_evicted : Bool) (calls : List (Call V))
      → 0 < max
      → All (IsSmall max) calls
      → (c : Cache V) × (run (new max on_evicted) calls ≡ some c) × IsGood max c
  unfolding new total
  run-new-IsGood max on_evicted calls pos small =
      run-IsGood max (new max on_evicted) calls pos small
        (record { valid = new-IsValid max on_evicted; limit = refl; within = omega arith })
