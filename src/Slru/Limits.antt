-- ===== src/Slru/Limits.antt =====
-- The loops of the SLRU cache, and its limits.
use cachecore.Base.{
  ℕ, zero, suc, ◌+◌, ◌<◌, ◌≤◌, ◌≡◌, refl, ◌∙◌, true, false, not, ◌&&◌, ◌⊎◌, inl, inr, none, some,
  arith, length, Option-cases, Bool-cases, ltb, ◌==◌,
}
use cachecore.Expiry.{Value}
use cachecore.Go.Int64.{half, slt_nonneg, of_nat_small}
use cachecore.Go.LinkedList.{
  Element, back, total, back-eq-some, total-remove, length-remove, total-empty, back_of-length,
  back-length,
}
use cachecore.Slru.{
  Ratio, seg_probation, Entry, Cache, entry_key, take_out, remove_element, oldest, is_over, shrink,
  enforce_total_limit,
}
use cachecore.Slru.Invariant.{InSegment-value_of, size, IsValid, Stands}
use cachecore.Slru.Moves.{remove_element-IsValid}
use cachecore.Slru.Methods.{oldest-Stands, shrink-IsValid}

module _ {F V : Type 0} ⦃r : Ratio F⦄ ⦃v : Value V⦄ where
  -- The size of all entries.
  abbrev pub weight : Cache F V → ℕ
  weight c = total size c.probation + total size c.protected

  abbrev pub elements : Cache F V → ℕ
  elements c = length c.probation + length c.protected

  -- With the same limits, no bigger, nor bigger in the protected list.
  pub record Lighter (c c' : Cache F V) : Type 0 where
    pub max_bytes : c'.max_bytes ≡ c.max_bytes
    pub protected_ratio : c'.protected_ratio ≡ c.protected_ratio
    pub lighter : weight c' ≤ weight c
    pub lighter_protected : total size c'.protected ≤ total size c.protected

  pub Lighter-refl : (c : Cache F V) → Lighter c c
  Lighter-refl c = ground arith

  pub Lighter-trans : (c c1 c2 : Cache F V) → Lighter c c1 → Lighter c1 c2 → Lighter c c2
  Lighter-trans c c1 c2 a b = ground arith

  pub remove_element-Lighter :
      (c : Cache F V) (i : ℕ) (e : Entry V)
      → Stands c i e
      → Lighter c (remove_element c i e) × (elements (remove_element c i e) + 1 ≡ elements c)
  unfolding remove_element take_out
  remove_element-Lighter c i e (inl (s, p)) =
      ground (arith, total-remove size i e c.probation p, length-remove i e c.probation p)
  remove_element-Lighter c i e (inr (s, p)) =
      ground (arith, total-remove size i e c.protected p, length-remove i e c.protected p)

  -- With sizes below 2 ^ 63 and a limit that is not negative, the test compares sizes.
  pub is_over_small :
      (c : Cache F V)
      → IsValid c
      → c.max_bytes < half
      → weight c < half
      → is_over c ≡ (not (c.max_bytes == 0) && ltb c.max_bytes (weight c))
  unfolding is_over
  is_over_small c h m t = rw (h.counted, of_nat_small (weight c) (omega arith), slt_nonneg _ _ m t)

  pub shrink-Lighter : (n : ℕ) (c : Cache F V) → IsValid c → Lighter c (shrink n c)
  unfolding shrink
  shrink-Lighter zero c h = Lighter-refl c
  shrink-Lighter (suc n) c h = elim (Bool-cases (is_over c)) [
    | inr fits ↦ rw (fits, shrink) (Lighter-refl c)
    | inl over ↦ elim (Option-cases (oldest c)) [
      | inl empty ↦ rw (over, shrink, empty) (Lighter-refl c)
      | inr (e, p) ↦
          let w = oldest-Stands c e h p in
          let c1 = remove_element c e.id e.value in
          rw (over, shrink, p)
            (Lighter-trans c c1 (shrink n c1) (remove_element-Lighter c e.id e.value w).0
              (shrink-Lighter n c1 (remove_element-IsValid c h e.id e.value w)))
    ]
  ]

  -- The loop of `enforceTotalLimit` ends by its own tests: the cache is not over its limit, or there
  -- is nothing left to evict.
  pub shrink_exits :
      (n : ℕ) (c : Cache F V)
      → IsValid c
      → elements c ≤ n
      → (is_over (shrink n c) ≡ false) ⊎ (oldest (shrink n c) ≡ none)
  unfolding shrink oldest
  shrink_exits zero c h b = inr (
      ground
        (arith, back_of-length c.probation (omega arith), back_of-length c.protected (omega arith)))
  shrink_exits (suc n) c h b = elim (Bool-cases (is_over c)) [
    | inr fits ↦ rw (fits, shrink) (inl fits)
    | inl over ↦ elim (Option-cases (oldest c)) [
      | inl empty ↦ rw (over, shrink, empty) (inr empty)
      | inr (e, p) ↦
          let w = oldest-Stands c e h p in
          let c1 = remove_element c e.id e.value in
          rw (over, shrink, p)
            (shrink_exits n c1 (remove_element-IsValid c h e.id e.value w)
              (omega (arith, (remove_element-Lighter c e.id e.value w).1)))
    ]
  ]

  oldest-weight : (c : Cache F V) → oldest c ≡ none → weight c ≡ 0
  unfolding oldest
  oldest-weight c h = ground (
    arith,
    back-length c.probation,
    back-length c.protected,
    total-empty size c.probation,
    total-empty size c.protected,
  )

  -- A valid cache with a positive limit and sizes below 2 ^ 63 fits after `enforceTotalLimit`.
  pub enforce_total_limit_fits :
      (c : Cache F V)
      → IsValid c
      → 0 < c.max_bytes
      → c.max_bytes < half
      → weight c < half
      → weight (enforce_total_limit c) ≤ c.max_bytes
  unfolding enforce_total_limit
  enforce_total_limit_fits c h pos m t =
      let l = shrink-Lighter (elements c) c h in
      let c1 = shrink (elements c) c in
      ground (
        arith,
        l.lighter,
        l.max_bytes,
        shrink_exits (elements c) c h (omega arith),
        oldest-weight c1,
        is_over_small c1 (shrink-IsValid (elements c) c h) (omega (arith, l.max_bytes))
            (omega (arith, l.lighter)),
      )

  probation_goes :
      (c : Cache F V) (e f : Element (Entry V))
      → IsValid c
      → oldest c ≡ some e
      → back c.probation ≡ some f
      → (remove_element c e.id e.value).protected ≡ c.protected
  unfolding oldest remove_element take_out
  probation_goes c e f h p last =
      let q = (back-eq-some entry_key c.probation e h.apart.left (ground arith)).0 in
      ground (arith, InSegment-value_of seg_probation e.id c.probation e.value h.probationary q)

  over_keeps_protected :
      (c : Cache F V) (e : Element (Entry V))
      → IsValid c
      → c.max_bytes < half
      → weight c < half
      → total size c.protected ≤ c.max_bytes
      → is_over c ≡ true
      → oldest c ≡ some e
      → (remove_element c e.id e.value).protected ≡ c.protected
  over_keeps_protected c e h m t fit over p = elim (Option-cases (back c.probation)) [
    | inr (f, last) ↦ probation_goes c e f h p last
    | inl empty ↦
        let none_left = total-empty size c.probation (back-length c.probation empty) in
        absurd (ground (arith, is_over_small c h m t, none_left))
  ]

  -- While the protected entries alone fit, the loop evicts none of them.
  pub shrink_keeps_protected :
      (n : ℕ) (c : Cache F V)
      → IsValid c
      → c.max_bytes < half
      → weight c < half
      → total size c.protected ≤ c.max_bytes
      → (shrink n c).protected ≡ c.protected
  unfolding shrink
  shrink_keeps_protected zero c h m t fit = refl
  shrink_keeps_protected (suc n) c h m t fit = elim (Bool-cases (is_over c)) [
    | inr fits ↦ rw (fits, shrink)
    | inl over ↦ elim (Option-cases (oldest c)) [
      | inl empty ↦ rw (over, shrink, empty)
      | inr (e, p) ↦
          let w = oldest-Stands c e h p in
          let c1 = remove_element c e.id e.value in
          let l = (remove_element-Lighter c e.id e.value w).0 in
          let same = over_keeps_protected c e h m t fit over p in
          rw (over, shrink, p)
            (shrink_keeps_protected n c1 (remove_element-IsValid c h e.id e.value w)
                (omega (arith, l.max_bytes)) (omega (arith, l.lighter))
                (omega (arith, l.max_bytes, l.lighter_protected))
              ∙ same)
    ]
  ]
