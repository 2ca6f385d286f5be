-- ===== src/Slru/Runs.antt =====
-- Whole histories of calls of the SLRU cache.
use cachecore.Base.{
  ℕ, ◌+◌, ◌<◌, refl, inl, inr, Bool, List, [], ◌∷◌, arith, length, Option-cases, All,
}
use cachecore.Expiry.{Value}
use cachecore.Go.Bytes.{Key}
use cachecore.Go.Int64.{Int64, half}
use cachecore.Go.LinkedList.{total}
use cachecore.Slru.{
  Ratio, Cache, new, get, remove, remove_oldest, remove_element, add_with_ttl, remove_expired,
  oldest,
}
use cachecore.Slru.Invariant.{locate}
use cachecore.Slru.Moves.{remove_element-IsValid}
use cachecore.Slru.Methods.{new-IsValid, oldest-Stands}
use cachecore.Slru.Expire.{remove_expired-IsValid}
use cachecore.Slru.Limits.{remove_element-Lighter}
use cachecore.Slru.Good.{
  AreLimits, effective, IsGood, Lighter-IsGood, get-IsGood, add_new-IsGood, add_old-IsGood,
}

pub data Call (V : Type 0) : Type 0 where
  gets : Key → ℕ → Call V
  adds : Key → V → Int64 → ℕ → Call V
  removes : Key → Call V
  removes_oldest : Call V
  removes_expired : ℕ → Call V

module _ {V : Type 0} ⦃v : Value V⦄ where
  -- A stored value and the limit stay below 2 ^ 63 together.
  abbrev pub IsSmall : Int64 → Call V → Type 0
  IsSmall max (adds key value ttl now) = max + (length key + v.len value) < half
  IsSmall max _ = Unit {0}

module _ {F V : Type 0} ⦃r : Ratio F⦄ ⦃v : Value V⦄ where
  unfoldable pub step : Cache F V → Call V → Cache F V
  step c (gets key now) = (get c key now).0
  step c (adds key value ttl now) = add_with_ttl c key value ttl now
  step c (removes key) = remove c key
  step c removes_oldest = remove_oldest c
  step c (removes_expired now) = remove_expired c now

  unfoldable pub run : Cache F V → List (Call V) → Cache F V
  run c [] = c
  run c (call ∷ calls) = run (step c call) calls

  add-IsGood :
      (max : Int64) (ratio : F) (c : Cache F V) (key : Key) (value : V) (ttl : Int64) (now : ℕ)
      → AreLimits max ratio
      → IsGood max ratio c
      → max + (length key + v.len value) < half
      → IsGood max ratio (add_with_ttl c key value ttl now)
  unfolding add_with_ttl
  add-IsGood max ratio c key value ttl now m g small = elim (locate c key g.valid) [
    | inl (miss, _) ↦ rw (miss, add_with_ttl) (add_new-IsGood max ratio c _ m g refl miss small)
    | inr (i, e, found, p, q, _, w) ↦
        rw (found, add_with_ttl, p) (add_old-IsGood max ratio c i e _ m g refl refl w (rw q small))
  ]

  remove-IsGood :
      (max : Int64) (ratio : F) (c : Cache F V) (key : Key)
      → IsGood max ratio c
      → IsGood max ratio (remove c key)
  unfolding remove
  remove-IsGood max ratio c key g = elim (locate c key g.valid) [
    | inl (miss, _) ↦ rw (miss, remove) g
    | inr (i, e, found, p, q, _, w) ↦
        rw (found, remove, p)
          (Lighter-IsGood max ratio c (remove_element c i e) g
            (remove_element-IsValid c g.valid i e w) (remove_element-Lighter c i e w).0)
  ]

  remove_oldest-IsGood :
      (max : Int64) (ratio : F) (c : Cache F V)
      → IsGood max ratio c
      → IsGood max ratio (remove_oldest c)
  unfolding remove_oldest
  remove_oldest-IsGood max ratio c g = elim (Option-cases (oldest c)) [
    | inl empty ↦ rw (empty, remove_oldest) g
    | inr (e, p) ↦
        let w = oldest-Stands c e g.valid p in
        rw (p, remove_oldest)
          (Lighter-IsGood max ratio c (remove_element c e.id e.value) g
            (remove_element-IsValid c g.valid e.id e.value w)
            (remove_element-Lighter c e.id e.value w).0)
  ]

  -- Every method keeps a valid cache valid and within both limits.
  pub step-IsGood :
      (max : Int64) (ratio : F) (c : Cache F V) (call : Call V)
      → AreLimits max ratio
      → IsSmall max call
      → IsGood max ratio c
      → IsGood max ratio (step c call)
  unfolding step
  step-IsGood max ratio c (gets key now) m small g = get-IsGood max ratio c key now m g
  step-IsGood max ratio c (adds key value ttl now) m small g =
      add-IsGood max ratio c key value ttl now m g small
  step-IsGood max ratio c (removes key) m small g = remove-IsGood max ratio c key g
  step-IsGood max ratio c removes_oldest m small g = remove_oldest-IsGood max ratio c g
  step-IsGood max ratio c (removes_expired now) m small g =
      let (valid, lighter) = remove_expired-IsValid c now g.valid in
      Lighter-IsGood max ratio c (remove_expired c now) g valid lighter

  run-IsGood :
      (max : Int64) (ratio : F) (calls : List (Call V)) (c : Cache F V)
      → AreLimits max ratio
      → All (IsSmall max) calls
      → IsGood max ratio c
      → IsGood max ratio (run c calls)
  unfolding run
  run-IsGood max ratio [] c m small g = g
  run-IsGood max ratio (call ∷ calls) c m small g =
      run-IsGood max ratio calls (step c call) m small.1 (step-IsGood max ratio c call m small.0 g)

  -- After every history of calls of a new cache, the map and the two lists agree, the counters
  -- hold the sizes of the entries, all entries together are within the limit, and the protected
  -- ones within theirs. The limit is positive, with the size of any stored entry it stays below 2
  -- ^ 63, and its product with the ratio is a word.
  pub run_slru-IsGood :
      (max : Int64) (ratio : F) (on_evicted : Bool) (calls : List (Call V))
      → AreLimits max (effective ratio)
      → All (IsSmall max) calls
      → IsGood max (effective ratio) (run (new max ratio on_evicted) calls)
  unfolding new total
  run_slru-IsGood max ratio on_evicted calls m small =
      run-IsGood max (effective ratio) calls (new max ratio on_evicted) m small (record {
        valid = new-IsValid max ratio on_evicted;
        max_bytes = refl;
        protected_ratio = refl;
        within = omega arith;
        protected_within = omega arith;
      })
