-- ===== src/Slru/Good.antt =====
-- The parts of the methods of the SLRU cache, and both of its limits.
use cachecore.Base.{
  ℕ, ◌+◌, ◌<◌, ◌≤◌, ◌≡◌, refl, sym, ◌∙◌, subst, inl, inr, none, arith, length, if◌then◌else◌,
}
use cachecore.Expiry.{Value}
use cachecore.Go.Bytes.{Key}
use cachecore.Go.Int64.{Int64, half, modulus}
use cachecore.Go.LinkedList.{total, total-remove}
use cachecore.Go.Map
use cachecore.Slru.{
  Ratio, seg_probation, Entry, Cache, get, remove_element, add_with_ttl, hit, promote, raise,
  insert, update, enforce_total_limit, enforce_protected_limit, protected_max_bytes,
}
use cachecore.Slru.Invariant.{size, IsValid, Stands, locate}
use cachecore.Slru.Moves.{remove_element-IsValid, insert-IsValid}
use cachecore.Slru.Shifts.{raise-IsValid}
use cachecore.Slru.Methods.{
  touch-push_front, touch-set_value, hit-IsValid, update-IsValid, enforce_protected_limit-IsValid,
  shrink-IsValid,
}
use cachecore.Slru.Limits.{
  weight, Lighter, remove_element-Lighter, shrink-Lighter, enforce_total_limit_fits,
  shrink_keeps_protected,
}
use cachecore.Slru.Demotion.{enforce_protected_limit_fits, protected_max_of-Lighter}

module _ {F : Type 0} ⦃r : Ratio F⦄ where
  -- The limit is positive, and it and its product with the ratio are words, the first below 2 ^ 63.
  pub record AreLimits (max : Int64) (ratio : F) : Type 0 where
    pub positive : 0 < max
    pub small : max < half
    pub word : r.scale max ratio < modulus

  -- The ratio that a new cache works with.
  abbrev pub effective : F → F
  effective ratio = if r.out_of_range ratio then r.default_protected else ratio

module _ {F V : Type 0} ⦃r : Ratio F⦄ ⦃v : Value V⦄ where
  -- The cache is valid and within both limits.
  pub record IsGood (max : Int64) (ratio : F) (c : Cache F V) : Type 0 where
    pub valid : IsValid c
    pub max_bytes : c.max_bytes ≡ max
    pub protected_ratio : c.protected_ratio ≡ ratio
    pub within : weight c ≤ max
    pub protected_within : total size c.protected ≤ protected_max_bytes c

  pub Lighter-IsGood :
      (max : Int64) (ratio : F) (c c' : Cache F V)
      → IsGood max ratio c
      → IsValid c'
      → Lighter c c'
      → IsGood max ratio c'
  Lighter-IsGood max ratio c c' g h l = record {
    valid = h;
    max_bytes = l.max_bytes ∙ g.max_bytes;
    protected_ratio = l.protected_ratio ∙ g.protected_ratio;
    within = omega (arith, g.within, l.lighter);
    protected_within =
        omega (arith, g.protected_within, l.lighter_protected, protected_max_of-Lighter c c' l);
  }

  -- With both limits enforced, from a valid cache of small size.
  pub enforce-IsGood :
      (max : Int64) (ratio : F) (c : Cache F V)
      → IsValid c
      → AreLimits max ratio
      → c.max_bytes ≡ max
      → c.protected_ratio ≡ ratio
      → weight c < half
      → IsGood max ratio (enforce_total_limit (enforce_protected_limit c))
  unfolding enforce_total_limit
  enforce-IsGood max ratio c h m e f t =
      let (l, w, fit, _, _) =
        enforce_protected_limit_fits c h (rw e m.positive) (rw e m.small) (rw (e, f) m.word) t in
      let c1 = enforce_protected_limit c in
      let h1 = enforce_protected_limit-IsValid c h in
      let l2 = shrink-Lighter (length c1.probation + length c1.protected) c1 h1 in
      let c2 = enforce_total_limit c1 in
      let e1 = l.max_bytes ∙ e in
      record {
        valid = shrink-IsValid _ c1 h1;
        max_bytes = l2.max_bytes ∙ e1;
        protected_ratio = l2.protected_ratio ∙ l.protected_ratio ∙ f;
        within = omega (
          arith,
          e1,
          enforce_total_limit_fits c1 h1 (rw e1 m.positive) (rw e1 m.small) (omega (arith, w)),
        );
        protected_within = omega (
          arith,
          fit,
          l2.lighter_protected,
          protected_max_of-Lighter c c1 l,
          protected_max_of-Lighter c1 c2 l2,
        );
      }

  pub update-weight :
      (c : Cache F V) (i : ℕ) (e e' : Entry V)
      → Stands c i e
      → (weight (update e.seg c i e e') ≤ weight c + size e')
        × ((update e.seg c i e e').max_bytes ≡ c.max_bytes)
        × ((update e.seg c i e e').protected_ratio ≡ c.protected_ratio)
  unfolding update total
  update-weight c i e e' (inl (s, p)) =
      ground (arith, touch-set_value i c.probation e e' p, total-remove size i e c.probation p)
  update-weight c i e e' (inr (s, p)) =
      ground (arith, touch-set_value i c.protected e e' p, total-remove size i e c.protected p)

  pub hit-IsGood :
      (max : Int64) (ratio : F) (c : Cache F V) (i : ℕ) (e : Entry V)
      → AreLimits max ratio
      → IsGood max ratio c
      → Stands c i e
      → IsGood max ratio (hit e.seg c i e)
  unfolding hit promote raise total
  hit-IsGood max ratio c i e m g (inl (s, p)) =
      subst (λ t. IsGood max ratio (hit t c i e)) (sym s)
        (enforce-IsGood max ratio (raise c i e) (raise-IsValid c g.valid i e p) m g.max_bytes
          g.protected_ratio (omega (arith, m.small, g.within, total-remove size i e c.probation p)))
  hit-IsGood max ratio c i e m g (inr (s, p)) =
      let gap = total-remove size i e c.protected p in
      Lighter-IsGood max ratio c (hit e.seg c i e) g (hit-IsValid c i e g.valid (inr (s, p))) (
        subst (λ t. Lighter c (hit t c i e)) (sym s)
          (rw (touch-push_front i c.protected e p) (record {
            max_bytes = refl;
            protected_ratio = refl;
            lighter = omega (arith, gap);
            lighter_protected = omega (arith, gap);
          })))

  pub get-IsGood :
      (max : Int64) (ratio : F) (c : Cache F V) (key : Key) (now : ℕ)
      → AreLimits max ratio
      → IsGood max ratio c
      → IsGood max ratio (get c key now).0
  unfolding get
  get-IsGood max ratio c key now m g = elim (locate c key g.valid) [
    | inl (miss, _) ↦ rw (miss, get) g
    | inr (i, e, found, p, q, _, w) ↦
        let gone =
          Lighter-IsGood max ratio c (remove_element c i e) g
            (remove_element-IsValid c g.valid i e w) (remove_element-Lighter c i e w).0 in
        rw (found, get, p) (ground (arith, gone, hit-IsGood max ratio c i e m g w))
  ]

  pub add_new-IsGood :
      (max : Int64) (ratio : F) (c : Cache F V) (e : Entry V)
      → AreLimits max ratio
      → IsGood max ratio c
      → e.seg ≡ seg_probation
      → Map.lookup e.key c.cache ≡ none
      → max + size e < half
      → IsGood max ratio (enforce_total_limit (insert c e))
  unfolding enforce_total_limit insert total protected_max_bytes
  add_new-IsGood max ratio c e m g s miss small =
      let c1 = insert c e in
      let h1 = insert-IsValid c g.valid e s miss in
      let l = shrink-Lighter (length c1.probation + length c1.protected) c1 h1 in
      let c2 = enforce_total_limit c1 in
      record {
        valid = shrink-IsValid _ c1 h1;
        max_bytes = l.max_bytes ∙ g.max_bytes;
        protected_ratio = l.protected_ratio ∙ g.protected_ratio;
        within = omega (
          arith,
          g.max_bytes,
          enforce_total_limit_fits c1 h1 (rw g.max_bytes m.positive) (rw g.max_bytes m.small)
              (omega (arith, g.within)),
        );
        protected_within =
            omega
              (arith, g.protected_within, l.lighter_protected, protected_max_of-Lighter c1 c2 l);
      }

  pub add_old-IsGood :
      (max : Int64) (ratio : F) (c : Cache F V) (i : ℕ) (e e' : Entry V)
      → AreLimits max ratio
      → IsGood max ratio c
      → e'.key ≡ e.key
      → e'.seg ≡ e.seg
      → Stands c i e
      → max + size e' < half
      → IsGood max ratio (enforce_total_limit (enforce_protected_limit (update e.seg c i e e')))
  add_old-IsGood max ratio c i e e' m g q same w small =
      let (b, limit, f) = update-weight c i e e' w in
      enforce-IsGood max ratio (update e.seg c i e e') (update-IsValid c i e e' g.valid q same w) m
        (limit ∙ g.max_bytes) (f ∙ g.protected_ratio) (omega (arith, b, g.within))

  -- In a valid cache with sizes below 2 ^ 63, storing a new key, as a scan does, leaves the
  -- protected entries alone, in their order, if they fit within the limit of the cache by
  -- themselves.
  pub add_new_keeps_protected :
      (c : Cache F V) (key : Key) (value : V) (ttl : Int64) (now : ℕ)
      → IsValid c
      → Map.lookup key c.cache ≡ none
      → c.max_bytes < half
      → weight c + (length key + v.len value) < half
      → total size c.protected ≤ c.max_bytes
      → (add_with_ttl c key value ttl now).protected ≡ c.protected
  unfolding add_with_ttl enforce_total_limit insert total
  add_new_keeps_protected c key value ttl now h miss m t fit =
      rw (add_with_ttl, miss)
        (shrink_keeps_protected _ _ (insert-IsValid c h _ refl miss) m (omega arith) fit)
