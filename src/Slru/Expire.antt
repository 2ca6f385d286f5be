-- ===== src/Slru/Expire.antt =====
-- `RemoveExpired` of the SLRU cache and the invariant.
use mathlib.Core.List.{reverse-cons}
use cachecore.Base.{
  ℕ, ◌≡◌, refl, inl, inr, ◌≢◌, List, [], ◌∷◌, ◌++◌, none, some, arith, Bool-cases, reverse,
}
use cachecore.Expiry.{Value, passed}
use cachecore.Go.LinkedList.{Element, value_of, Distinct, value_of-remove_ne, or_else}
use cachecore.Slru.{
  Ratio, seg_probation, seg_protected, Entry, Cache, entry_key, take_out, remove_element, sweep,
  remove_expired,
}
use cachecore.Slru.Invariant.{InSegment-value_of, IsValid, Stands}
use cachecore.Slru.Limits.{Lighter, Lighter-refl, Lighter-trans, remove_element-Lighter}
use cachecore.Slru.Moves.{remove_element-IsValid}

module _ {A : Type 0} where
  value_of-append :
      (i : ℕ) (l m : List (Element A)) → value_of i (l ++ m) ≡ or_else (value_of i l) (value_of i m)
  unfolding value_of
  value_of-append i [] m = refl
  value_of-append i (e ∷ l) m = ground (arith, value_of-append i l m)

  value_of-reverse-none :
      (i : ℕ) (l : List (Element A)) → value_of i l ≡ none → value_of i (reverse l) ≡ none
  unfolding value_of
  value_of-reverse-none i [] h = refl
  value_of-reverse-none i (e ∷ l) h =
      rw (reverse-cons e l, value_of-append) (ground (arith, value_of-reverse-none i l))

module _ {F V : Type 0} ⦃r : Ratio F⦄ ⦃v : Value V⦄ where
  -- The elements that a loop has still to visit: they stand in the cache, none twice.
  abbrev Pending : Cache F V → List (Element (Entry V)) → Type 0
  Pending c [] = Unit {0}
  Pending c (e ∷ l) = Stands c e.id e.value × (value_of e.id l ≡ none) × Pending c l

  remove_element-Stands :
      (c : Cache F V) (i j : ℕ) (e f : Entry V)
      → i ≢ j
      → Stands c i e
      → Stands c j f
      → Stands (remove_element c i e) j f
  unfolding remove_element take_out
  remove_element-Stands c i j e f n (inl (s, p)) w =
      ground (arith, value_of-remove_ne i j c.probation)
  remove_element-Stands c i j e f n (inr (s, p)) w =
      ground (arith, value_of-remove_ne i j c.protected)

  remove_element-Pending :
      (c : Cache F V) (i : ℕ) (e : Entry V) (l : List (Element (Entry V)))
      → Stands c i e
      → value_of i l ≡ none
      → Pending c l
      → Pending (remove_element c i e) l
  unfolding value_of
  remove_element-Pending c i e [] w absent p = tt
  remove_element-Pending c i e (f ∷ l) w absent p = (
    remove_element-Stands c i f.id e f.value (ground arith) w p.0,
    p.1,
    remove_element-Pending c i e l w (ground arith) p.2,
  )

  sweep-IsValid :
      (now : ℕ) (l : List (Element (Entry V))) (c : Cache F V)
      → Pending c l
      → IsValid c
      → IsValid (sweep now l c) × Lighter c (sweep now l c)
  unfolding sweep
  sweep-IsValid now [] c p h = (h, Lighter-refl c)
  sweep-IsValid now (e ∷ l) c p h = elim (Bool-cases (passed e.value.expire_at now)) [
    | inr live ↦ rw (sweep, live) (sweep-IsValid now l c p.2 h)
    | inl old ↦
        let c1 = remove_element c e.id e.value in
        let (valid, lighter) =
          sweep-IsValid now l c1 (remove_element-Pending c e.id e.value l p.0 p.1 p.2)
            (remove_element-IsValid c h e.id e.value p.0) in
        rw (sweep, old)
          (
            valid,
            Lighter-trans c c1 (sweep now l c1) (remove_element-Lighter c e.id e.value p.0).0
                lighter,
          )
  ]

  Pending-append :
      (c : Cache F V) (l : List (Element (Entry V))) (e : Element (Entry V))
      → Pending c l
      → Stands c e.id e.value
      → value_of e.id l ≡ none
      → Pending c (l ++ e ∷ [])
  unfolding value_of
  Pending-append c [] e p w absent = (w, refl, tt)
  Pending-append c (f ∷ l) e p w absent = (
    p.0,
    ground (arith, value_of-append f.id l (e ∷ [])),
    Pending-append c l e p.2 w (ground arith),
  )

  -- A list whose elements stand in the cache, from its back on.
  Pending-reverse :
      (c : Cache F V) (l : List (Element (Entry V)))
      → Distinct entry_key l
      → ((i : ℕ) (e : Entry V) → value_of i l ≡ some e → Stands c i e)
      → Pending c (reverse l)
  unfolding value_of
  Pending-reverse c [] d w = tt
  Pending-reverse c (e ∷ l) d w = rw (reverse-cons e l) (
      Pending-append c (reverse l) e (Pending-reverse c l d.2 (λ i f p. w i f (ground arith)))
        (w e.id e.value (ground arith)) (value_of-reverse-none e.id l d.0))

  pub remove_expired-IsValid :
      (c : Cache F V) (now : ℕ)
      → IsValid c
      → IsValid (remove_expired c now) × Lighter c (remove_expired c now)
  unfolding remove_expired
  remove_expired-IsValid c now h =
      let (first, lighter) =
        sweep-IsValid now (reverse c.probation) c
          (Pending-reverse c c.probation h.apart.left
            (λ i e p. inl (InSegment-value_of seg_probation i c.probation e h.probationary p, p)))
          h in
      let c1 = sweep now (reverse c.probation) c in
      let (second, lighter2) =
        sweep-IsValid now (reverse c1.protected) c1
          (Pending-reverse c1 c1.protected first.apart.right
            (λ i e p. inr (InSegment-value_of seg_protected i c1.protected e first.shielded p, p)))
          first in
      (second, Lighter-trans c c1 (sweep now (reverse c1.protected) c1) lighter lighter2)
