-- ===== src/Slru/Invariant.antt =====
-- The invariant of the SLRU cache.
use cachecore.Base.{
  ℕ, ◌+◌, ◌≡◌, sym, ◌∙◌, ◌⊎◌, inl, inr, List, [], ◌∷◌, none, some, arith, length, Option-cases, All,
}
use cachecore.Expiry.{Value}
use cachecore.Go.Bytes.{Key}
use cachecore.Go.Int64.{of_nat, add-of_nat}
use cachecore.Go.LinkedList
use cachecore.Go.LinkedList.{
  Element, value_of, push_front, back, front, total, or_else, Distinct, Below, remove-Below,
  Below-mono, value_of-Below, total-remove, back-eq-some,
}
use cachecore.Go.Map
use cachecore.Go.Map.{lookup-insert, lookup-delete}
use cachecore.Slru.{
  Ratio, Segment, seg_probation, seg_protected, Entry, Cache, entry_key, cost, elem_value,
}
use cachecore.Slru.Segments.{IsApart, at, find_in, located, find_in-at-none}

module _ {V : Type 0} where
  -- Every element of the list is marked with the segment.
  abbrev pub InSegment : Segment → List (Element (Entry V)) → Type 0
  InSegment s l = All (λ e. e.value.seg ≡ s) l

  pub InSegment-remove :
      (s : Segment) (i : ℕ) (l : List (Element (Entry V)))
      → InSegment s l
      → InSegment s (LinkedList.remove i l)
  unfolding LinkedList.remove
  InSegment-remove s i [] h = tt
  InSegment-remove s i (e ∷ l) h = ground (arith, InSegment-remove s i l h.1)

  pub InSegment-value_of :
      (s : Segment) (i : ℕ) (l : List (Element (Entry V))) (kv : Entry V)
      → InSegment s l
      → value_of i l ≡ some kv
      → kv.seg ≡ s
  unfolding value_of
  InSegment-value_of s i [] kv h p = cc
  InSegment-value_of s i (e ∷ l) kv h p = ground (arith, InSegment-value_of s i l kv h.1)

module _ {V : Type 0} ⦃v : Value V⦄ where
  -- The size of an entry, in bytes.
  abbrev pub size : Entry V → ℕ
  size e = length e.key + v.len e.value

  pub cost-of_nat : (e : Entry V) → cost e ≡ of_nat (size e)
  unfolding cost
  cost-of_nat e = add-of_nat (length e.key) (v.len e.value)

module _ {F V : Type 0} ⦃r : Ratio F⦄ ⦃v : Value V⦄ where
  pub record IsValid (c : Cache F V) : Type 0 where
    -- no key and no element stands twice, in both lists together
    pub apart : IsApart entry_key c.probation c.protected
    -- the map leads each key to its element, and holds no other key
    pub index : (k : Key) → Map.lookup k c.cache ≡ at entry_key k c.probation c.protected
    -- each entry is marked with the segment whose list it is in
    pub probationary : InSegment seg_probation c.probation
    pub shielded : InSegment seg_protected c.protected
    -- the counters are the sizes of the entries, modulo 2 ^ 64
    pub probation_counted : c.probation_bytes ≡ of_nat (total size c.probation)
    pub protected_counted : c.protected_bytes ≡ of_nat (total size c.protected)
    pub counted : c.curbytes ≡ of_nat (total size c.probation + total size c.protected)
    pub fresh_probation : Below c.next_id c.probation
    pub fresh_protected : Below c.next_id c.protected

  -- Where an entry of a valid cache is.
  abbrev pub Stands : Cache F V → ℕ → Entry V → Type 0
  Stands c i e =
      ((e.seg ≡ seg_probation) × (value_of i c.probation ≡ some e))
      ⊎ ((e.seg ≡ seg_protected) × (value_of i c.protected ≡ some e))

  -- What a key leads to in a valid cache.
  abbrev pub Located : Cache F V → Key → Type 0
  Located c key =
      ((Map.lookup key c.cache ≡ none) × (find_in entry_key key c.probation c.protected ≡ none))
      ⊎ ((i : ℕ) × (e : Entry V) × (Map.lookup key c.cache ≡ some i)
          × (elem_value c i ≡ some e)
          × (e.key ≡ key)
          × (find_in entry_key key c.probation c.protected ≡ some e)
          × Stands c i e)

  pub locate : (c : Cache F V) (key : Key) → IsValid c → Located c key
  unfolding elem_value
  locate c key h = elim (Option-cases (Map.lookup key c.cache)) [
    | inl miss ↦
        inl (miss, find_in-at-none entry_key c.probation c.protected key (sym (h.index key) ∙ miss))
    | inr (i, hit) ↦
        let (e, p, q, f, w) =
          located entry_key c.probation c.protected key i h.apart (sym (h.index key) ∙ hit) in
        inr (
          i,
          e,
          hit,
          p,
          q,
          f,
          ground (
            arith,
            InSegment-value_of seg_probation i c.probation e h.probationary,
            InSegment-value_of seg_protected i c.protected e h.shielded,
          ),
        )
  ]
