-- ===== src/Slru/Methods.antt =====
-- The methods of the SLRU cache and its invariant.
use cachecore.Base.{
  ℕ, zero, suc, ◌≡◌, refl, sym, ◌∙◌, ap, subst, Bool, inl, inr, List, some, arith, length,
  Option-cases, Bool-cases,
}
use cachecore.Expiry.{Value}
use cachecore.Go.Bytes.{Key}
use cachecore.Go.Int64.{Int64, of_nat, slt}
use cachecore.Go.LinkedList
use cachecore.Go.LinkedList.{
  Element, value_of, push_front, back, front, total, or_else, id_of, set_value, move_to_front,
  back-eq-some, total-remove, move_to_front-push_front, move_to_front-front, move_to_front_empty,
  move_to_front_absent, remove-set_value, value_of-set_value,
}
use cachecore.Go.Map
use cachecore.Slru.{
  Ratio, seg_probation, seg_protected, Entry, Cache, entry_key, remove_element, demote, demote_loop,
  enforce_protected_limit, oldest, is_over, protected_max_bytes, remove_oldest, shrink,
  enforce_total_limit, promote, touch, hit, get, update, add_with_ttl, remove, new,
}
use cachecore.Slru.Invariant.{InSegment-value_of, size, IsValid, Stands, locate}
use cachecore.Slru.Moves.{
  remove_element-IsValid, insert-IsValid, renew_probation-IsValid, renew_protected-IsValid,
  sub-cost-cost,
}
use cachecore.Slru.Shifts.{demote-IsValid, raise-IsValid}

module _ {V : Type 0} where
  -- To leave the front element alone is to move it to the front.
  pub touch-move_to_front : (i : ℕ) (l : List (Element (Entry V))) → touch i l ≡ move_to_front i l
  unfolding touch
  touch-move_to_front i l = elim (Option-cases (front l)) [
    | inl empty ↦ ground (arith, move_to_front_empty i l empty)
    | inr (f, p) ↦ ground (arith, move_to_front-front l f p)
  ]

  pub touch-push_front :
      (i : ℕ) (l : List (Element (Entry V))) (e : Entry V)
      → value_of i l ≡ some e
      → touch i l ≡ push_front i e (LinkedList.remove i l)
  touch-push_front i l e p = touch-move_to_front i l ∙ move_to_front-push_front i e l p

  pub touch-set_value :
      (i : ℕ) (l : List (Element (Entry V))) (e e' : Entry V)
      → value_of i l ≡ some e
      → touch i (set_value i e' l) ≡ push_front i e' (LinkedList.remove i l)
  touch-set_value i l e e' p =
      touch-push_front i (set_value i e' l) e'
        (ground (arith, value_of-set_value i i e' l {a = e} p))
      ∙ ap (push_front i e') (remove-set_value i e' l)

module _ {F V : Type 0} ⦃r : Ratio F⦄ ⦃v : Value V⦄ where
  pub new-IsValid :
      (max_bytes : Int64) (ratio : F) (on_evicted : Bool)
      → IsValid (new {V = V} max_bytes ratio on_evicted)
  unfolding new Map.lookup id_of total of_nat value_of
  new-IsValid max_bytes ratio on_evicted = record {
    apart = record { left = tt; right = tt; keys = λ k. inl refl; ids = λ i. inl refl };
    index = λ k. refl;
    probationary = tt;
    shielded = tt;
    probation_counted = refl;
    protected_counted = refl;
    counted = refl;
    fresh_probation = tt;
    fresh_protected = tt;
  }

  -- The next element to go stands in its list.
  pub oldest-Stands :
      (c : Cache F V) (e : Element (Entry V))
      → IsValid c
      → oldest c ≡ some e
      → Stands c e.id e.value
  unfolding oldest
  oldest-Stands c e h p = elim (Option-cases (back c.probation)) [
    | inl empty ↦
        let q = (back-eq-some entry_key c.protected e h.apart.right (ground arith)).0 in
        inr (InSegment-value_of seg_protected e.id c.protected e.value h.shielded q, q)
    | inr (f, last) ↦
        let q = (back-eq-some entry_key c.probation e h.apart.left (ground arith)).0 in
        inl (InSegment-value_of seg_probation e.id c.probation e.value h.probationary q, q)
  ]

  pub remove_oldest-IsValid : (c : Cache F V) → IsValid c → IsValid (remove_oldest c)
  unfolding remove_oldest
  remove_oldest-IsValid c h = elim (Option-cases (oldest c)) [
    | inl empty ↦ rw (empty, remove_oldest) h
    | inr (e, p) ↦
        rw (p, remove_oldest) (remove_element-IsValid c h e.id e.value (oldest-Stands c e h p))
  ]

  pub shrink-IsValid : (n : ℕ) (c : Cache F V) → IsValid c → IsValid (shrink n c)
  unfolding shrink
  shrink-IsValid zero c h = h
  shrink-IsValid (suc n) c h = elim (Bool-cases (is_over c)) [
    | inr fits ↦ rw (fits, shrink) h
    | inl over ↦ elim (Option-cases (oldest c)) [
      | inl empty ↦ rw (over, shrink, empty) h
      | inr (e, p) ↦
          rw (over, shrink, p)
            (shrink-IsValid n (remove_element c e.id e.value)
              (remove_element-IsValid c h e.id e.value (oldest-Stands c e h p)))
    ]
  ]

  pub demote_loop-IsValid : (n : ℕ) (c : Cache F V) → IsValid c → IsValid (demote_loop n c)
  unfolding demote_loop
  demote_loop-IsValid zero c h = h
  demote_loop-IsValid (suc n) c h =
      elim (Bool-cases (slt (protected_max_bytes c) c.protected_bytes)) [
        | inr fits ↦ rw (fits, demote_loop) h
        | inl over ↦ elim (Option-cases (back c.protected)) [
          | inl empty ↦ rw (over, demote_loop, empty) h
          | inr (e, p) ↦
              rw (over, demote_loop, p)
                (demote_loop-IsValid n (demote c e.id e.value) (
                  demote-IsValid c h e.id e.value
                    (back-eq-some entry_key c.protected e h.apart.right p).0))
        ]
      ]

  pub enforce_protected_limit-IsValid :
      (c : Cache F V) → IsValid c → IsValid (enforce_protected_limit c)
  unfolding enforce_protected_limit
  enforce_protected_limit-IsValid c h = ground (arith, demote_loop-IsValid (length c.protected) c h)

  pub enforce_total_limit-IsValid : (c : Cache F V) → IsValid c → IsValid (enforce_total_limit c)
  unfolding enforce_total_limit
  enforce_total_limit-IsValid c h = shrink-IsValid _ c h

  pub hit-IsValid :
      (c : Cache F V) (i : ℕ) (e : Entry V) → IsValid c → Stands c i e → IsValid (hit e.seg c i e)
  unfolding hit promote total
  hit-IsValid c i e h (inl (s, p)) =
      subst (λ t. IsValid (hit t c i e)) (sym s)
        (enforce_total_limit-IsValid _
          (enforce_protected_limit-IsValid _ (raise-IsValid c h i e p)))
  hit-IsValid c i e h (inr (s, p)) =
      let gap = total-remove size i e c.protected p in
      subst (λ t. IsValid (hit t c i e)) (sym s)
        (rw (touch-push_front i c.protected e p) (
          renew_protected-IsValid c h i e e c.curbytes c.protected_bytes p refl s (
            h.counted ∙ ap of_nat (omega (arith, gap)),
            h.protected_counted ∙ ap of_nat (omega (arith, gap)),
          )))

  pub update-IsValid :
      (c : Cache F V) (i : ℕ) (e e' : Entry V)
      → IsValid c
      → e'.key ≡ e.key
      → e'.seg ≡ e.seg
      → Stands c i e
      → IsValid (update e.seg c i e e')
  unfolding update total
  update-IsValid c i e e' h q same (inl (s, p)) =
      let gap = total-remove size i e c.probation p in
      subst (λ t. IsValid (update t c i e e')) (sym s)
        (rw (touch-set_value i c.probation e e' p) (
          renew_probation-IsValid c h i e e' _ _ p q (same ∙ s) (
            sub-cost-cost e e' _ _ _ h.counted (omega (arith, gap)),
            sub-cost-cost e e' _ _ _ h.probation_counted (omega (arith, gap)),
          )))
  update-IsValid c i e e' h q same (inr (s, p)) =
      let gap = total-remove size i e c.protected p in
      subst (λ t. IsValid (update t c i e e')) (sym s)
        (rw (touch-set_value i c.protected e e' p) (
          renew_protected-IsValid c h i e e' _ _ p q (same ∙ s) (
            sub-cost-cost e e' _ _ _ h.counted (omega (arith, gap)),
            sub-cost-cost e e' _ _ _ h.protected_counted (omega (arith, gap)),
          )))

  pub get-IsValid : (c : Cache F V) (key : Key) (now : ℕ) → IsValid c → IsValid (get c key now).0
  unfolding get
  get-IsValid c key now h = elim (locate c key h) [
    | inl (miss, _) ↦ rw (miss, get) h
    | inr (i, e, found, p, q, _, w) ↦
        rw (found, get, p) (ground (arith, remove_element-IsValid c h i e w, hit-IsValid c i e h w))
  ]

  pub add_with_ttl-IsValid :
      (c : Cache F V) (key : Key) (value : V) (ttl : Int64) (now : ℕ)
      → IsValid c
      → IsValid (add_with_ttl c key value ttl now)
  unfolding add_with_ttl
  add_with_ttl-IsValid c key value ttl now h = elim (locate c key h) [
    | inl (miss, _) ↦
        rw (miss, add_with_ttl) (enforce_total_limit-IsValid _ (insert-IsValid c h _ refl miss))
    | inr (i, e, found, p, q, _, w) ↦
        rw (found, add_with_ttl, p)
          (enforce_total_limit-IsValid _
            (enforce_protected_limit-IsValid _ (update-IsValid c i e _ h refl refl w)))
  ]

  pub remove-IsValid : (c : Cache F V) (key : Key) → IsValid c → IsValid (remove c key)
  unfolding remove
  remove-IsValid c key h = elim (locate c key h) [
    | inl (miss, _) ↦ rw (miss, remove) h
    | inr (i, e, found, p, q, _, w) ↦ rw (found, remove, p) (remove_element-IsValid c h i e w)
  ]
