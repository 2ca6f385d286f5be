-- ===== src/Slru/Demotion.antt =====
-- `enforceProtectedLimit` of the SLRU cache: its limit, and the entries that it moves.
use cachecore.Base.{
  ℕ, zero, suc, ◌+◌, ◌<◌, ◌≤◌, ◌≡◌, refl, sym, ap, ◌∙◌, false, List, [], ◌∷◌, ◌++◌, append_assoc,
  Option, ◌⊎◌, inl, inr, none, some, arith, length, Option-cases, Bool-cases,
}
use cachecore.Expiry.{Value}
use cachecore.Go.Int64.{slt-pos, half, modulus, slt, slt_nonneg, of_nat_small}
use cachecore.Go.Bytes.{Key}
use cachecore.Go.LinkedList.{
  Element, remove, value_of, back, total, back-eq-some, total-remove, length-remove, total-empty,
  back_of-length, back-length,
}
use cachecore.Slru.{
  Ratio, Entry, Cache, entry_key, demote, demote_loop, enforce_protected_limit, protected_max_bytes,
}
use cachecore.Slru.Invariant.{size, IsValid}
use cachecore.Slru.Shifts.{demote-IsValid}
use cachecore.Slru.Limits.{weight, Lighter, Lighter-refl, Lighter-trans}
use cachecore.Slru.Methods.{demote_loop-IsValid}

module _ {V : Type 0} where
  -- The key, the value and the expiry of an entry.
  abbrev pub bare_entry : Entry V → Key × V × Option ℕ
  bare_entry e = (e.key, e.value, e.expire_at)

  unfoldable pub bare : List (Element (Entry V)) → List (Key × V × Option ℕ)
  bare [] = []
  bare (e ∷ l) = bare_entry e.value ∷ bare l

  bare-append : (l m : List (Element (Entry V))) → bare (l ++ m) ≡ bare l ++ bare m
  unfolding bare
  bare-append [] m = refl
  bare-append (e ∷ l) m = ap (λ l. bare_entry e.value ∷ l) (bare-append l m)

module _ {F V : Type 0} ⦃r : Ratio F⦄ ⦃v : Value V⦄ where
  -- The loop of `enforceProtectedLimit` moves entries, and the size of the cache stays.
  demote-Lighter :
      (c : Cache F V) (i : ℕ) (e : Entry V)
      → value_of i c.protected ≡ some e
      → Lighter c (demote c i e)
        × (length (demote c i e).protected + 1 ≡ length c.protected)
        × (weight (demote c i e) ≡ weight c)
  unfolding demote total
  demote-Lighter c i e p =
      let gap = total-remove size i e c.protected p in
      (
        record {
          max_bytes = refl;
          protected_ratio = refl;
          lighter = omega (arith, gap);
          lighter_protected = omega (arith, gap);
        },
        length-remove i e c.protected p,
        omega (arith, gap),
      )

  -- What the cache keeps, the protected entries first, but for their segments.
  abbrev pub contents : Cache F V → List (Key × V × Option ℕ)
  contents c = bare c.protected ++ bare c.probation

  demote-contents :
      (c : Cache F V) (e : Element (Entry V))
      → IsValid c
      → back c.protected ≡ some e
      → contents (demote c e.id e.value) ≡ contents c
  unfolding demote bare
  demote-contents c e h p = sym (
      ap (λ l. bare l ++ bare c.probation) (back-eq-some entry_key c.protected e h.apart.right p).1
      ∙ ap (λ l. l ++ bare c.probation) (bare-append (remove e.id c.protected) (e ∷ []))
      ∙ append_assoc (bare (remove e.id c.protected)) (bare_entry e.value ∷ []) (bare c.probation))

  demote_loop-contents :
      (n : ℕ) (c : Cache F V) → IsValid c → contents (demote_loop n c) ≡ contents c
  unfolding demote_loop
  demote_loop-contents zero c h = refl
  demote_loop-contents (suc n) c h =
      elim (Bool-cases (slt (protected_max_bytes c) c.protected_bytes)) [
        | inr fits ↦ rw (fits, demote_loop) refl
        | inl over ↦ elim (Option-cases (back c.protected)) [
          | inl empty ↦ rw (over, demote_loop, empty) refl
          | inr (e, p) ↦
              let q = (back-eq-some entry_key c.protected e h.apart.right p).0 in
              rw (over, demote_loop, p)
                (demote_loop-contents n (demote c e.id e.value) (demote-IsValid c h e.id e.value q)
                  ∙ demote-contents c e h p)
        ]
      ]

  pub demote_loop-Lighter :
      (n : ℕ) (c : Cache F V)
      → IsValid c
      → Lighter c (demote_loop n c) × (weight (demote_loop n c) ≡ weight c)
  unfolding demote_loop
  demote_loop-Lighter zero c h = (Lighter-refl c, refl)
  demote_loop-Lighter (suc n) c h =
      elim (Bool-cases (slt (protected_max_bytes c) c.protected_bytes)) [
        | inr fits ↦ rw (fits, demote_loop) (Lighter-refl c, refl)
        | inl over ↦ elim (Option-cases (back c.protected)) [
          | inl empty ↦ rw (over, demote_loop, empty) (Lighter-refl c, refl)
          | inr (e, p) ↦
              let q = (back-eq-some entry_key c.protected e h.apart.right p).0 in
              let c1 = demote c e.id e.value in
              let (a, _, w) = demote-Lighter c e.id e.value q in
              let (b, w') = demote_loop-Lighter n c1 (demote-IsValid c h e.id e.value q) in
              rw (over, demote_loop, p) (Lighter-trans c c1 (demote_loop n c1) a b, w' ∙ w)
        ]
      ]

  demote_loop_exits :
      (n : ℕ) (c : Cache F V)
      → IsValid c
      → length c.protected ≤ n
      → (slt (protected_max_bytes (demote_loop n c)) (demote_loop n c).protected_bytes ≡ false)
        ⊎ (back (demote_loop n c).protected ≡ none)
  unfolding demote_loop
  demote_loop_exits zero c h b = inr (back_of-length c.protected (omega arith))
  demote_loop_exits (suc n) c h b =
      elim (Bool-cases (slt (protected_max_bytes c) c.protected_bytes)) [
        | inr fits ↦ rw (fits, demote_loop) (inl fits)
        | inl over ↦ elim (Option-cases (back c.protected)) [
          | inl empty ↦ rw (over, demote_loop, empty) (inr empty)
          | inr (e, p) ↦
              let q = (back-eq-some entry_key c.protected e h.apart.right p).0 in
              let c1 = demote c e.id e.value in
              rw (over, demote_loop, p)
                (demote_loop_exits n c1 (demote-IsValid c h e.id e.value q)
                  (omega (arith, (demote-Lighter c e.id e.value q).1)))
        ]
      ]

  -- The limit of the protected list is positive, where the product of limit and ratio is a word.
  pub protected_max_bounds :
      (c : Cache F V)
      → r.scale c.max_bytes c.protected_ratio < modulus
      → (0 < protected_max_bytes c) × (protected_max_bytes c < half)
  unfolding protected_max_bytes slt
  protected_max_bounds c word = ground arith

  pub protected_max_of-Lighter :
      (c c' : Cache F V) → Lighter c c' → protected_max_bytes c' ≡ protected_max_bytes c
  unfolding protected_max_bytes
  protected_max_of-Lighter c c' l = rw (l.max_bytes, l.protected_ratio)

  demoted_fits :
      (c c1 : Cache F V)
      → IsValid c1
      → Lighter c c1
      → r.scale c.max_bytes c.protected_ratio < modulus
      → weight c < half
      → (slt (protected_max_bytes c1) c1.protected_bytes ≡ false) ⊎ (back c1.protected ≡ none)
      → total size c1.protected ≤ protected_max_bytes c
  demoted_fits c c1 h l word t (inr empty) =
      omega (arith, total-empty size c1.protected (back-length c1.protected empty))
  demoted_fits c c1 h l word t (inl fits) =
      let (pos, small) = protected_max_bounds c word in
      let p : slt (protected_max_bytes c) (total size c1.protected) ≡ false =
        rw
          (
            ← protected_max_of-Lighter c c1 l,
            ← of_nat_small (total size c1.protected) (omega (arith, l.lighter)),
            ← h.protected_counted,
          )
          fits in
      ground (
        arith,
        p,
        slt_nonneg (protected_max_bytes c) (total size c1.protected) small
            (omega (arith, l.lighter)),
      )

  -- In a valid cache with a positive limit, whose product with the ratio is a word, and sizes
  -- below 2 ^ 63, the protected list fits after `enforceProtectedLimit`, the limits are as they
  -- were, and the cache is as big as it was. It is still valid, and the protected entries followed
  -- by those on probation are the same, with their keys, values and expiry times, in the same order.
  pub enforce_protected_limit_fits :
      (c : Cache F V)
      → IsValid c
      → 0 < c.max_bytes
      → c.max_bytes < half
      → r.scale c.max_bytes c.protected_ratio < modulus
      → weight c < half
      → Lighter c (enforce_protected_limit c)
        × (weight (enforce_protected_limit c) ≡ weight c)
        × (total size (enforce_protected_limit c).protected ≤ protected_max_bytes c)
        × IsValid (enforce_protected_limit c)
        × (contents (enforce_protected_limit c) ≡ contents c)
  unfolding enforce_protected_limit
  enforce_protected_limit_fits c h pos m word t =
      let n = length c.protected in
      let (l, w) = demote_loop-Lighter n c h in
      rw (slt-pos c.max_bytes pos m) (
        l,
        w,
        demoted_fits c (demote_loop n c) (demote_loop-IsValid n c h) l word t
            (demote_loop_exits n c h (omega arith)),
        demote_loop-IsValid n c h,
        demote_loop-contents n c h,
      )
