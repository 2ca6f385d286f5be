-- ===== src/Slru/Moves.antt =====
-- Elements that leave, enter and change in their lists, and the invariant of the SLRU cache.
use cachecore.Base.{ℕ, suc, ◌+◌, ◌≡◌, sym, ◌∙◌, ap, inl, inr, none, some, arith}
use cachecore.Expiry.{Value}
use cachecore.Go.Int64
use cachecore.Go.Int64.{Int64, of_nat, add-of_nat, sub-of_nat, change-of_nat}
use cachecore.Go.LinkedList
use cachecore.Go.LinkedList.{
  Element, value_of, push_front, back, front, total, or_else, Distinct, Below, remove-Below,
  Below-mono, value_of-Below, total-remove, back-eq-some, Below-value_of, value_of-remove_none,
  id_of-value_of, id_of,
}
use cachecore.Go.Map
use cachecore.Go.Map.{lookup-insert, lookup-delete}
use cachecore.Slru.{
  Ratio, seg_probation, seg_protected, Entry, Cache, entry_key, cost, take_out, remove_element,
  insert,
}
use cachecore.Slru.Invariant.{InSegment-remove, size, cost-of_nat, IsValid, Stands}
use cachecore.Slru.Segments.{
  IsApart-swap, remove-IsApart, push-IsApart, at-remove_left, at-remove_right, at-push_left,
  at-push_right, at-remove_self,
}

module _ {V : Type 0} ⦃v : Value V⦄ where
  pub sub-cost :
      (e : Entry V) (n : Int64) (t t' : ℕ)
      → n ≡ of_nat t
      → t' + size e ≡ t
      → Int64.sub n (cost e) ≡ of_nat t'
  sub-cost e n t t' p q =
      rw (p, cost-of_nat e, sub-of_nat t (size e) (omega arith)) (ap of_nat (omega arith))

  pub add-cost :
      (e : Entry V) (n : Int64) (t t' : ℕ)
      → n ≡ of_nat t
      → t' ≡ t + size e
      → Int64.add n (cost e) ≡ of_nat t'
  add-cost e n t t' p q = rw (p, cost-of_nat e, add-of_nat) (ap of_nat (sym q))

  pub sub-cost-cost :
      (e e' : Entry V) (n : Int64) (t t' : ℕ)
      → n ≡ of_nat t
      → t' + size e ≡ t + size e'
      → Int64.add n (Int64.sub (cost e') (cost e)) ≡ of_nat t'
  sub-cost-cost e e' n t t' p q =
      rw (p, cost-of_nat, cost-of_nat e) (change-of_nat t (size e) (size e') t' q)

module _ {F V : Type 0} ⦃r : Ratio F⦄ ⦃v : Value V⦄ (c : Cache F V) (h : IsValid c) where
  remove_probation-IsValid :
      (i : ℕ) (e : Entry V)
      → e.seg ≡ seg_probation
      → value_of i c.probation ≡ some e
      → IsValid (remove_element c i e)
  unfolding remove_element take_out cost
  remove_probation-IsValid i e s p =
      let gap = total-remove size i e c.probation p in
      rw s (record {
        apart = remove-IsApart entry_key c.probation c.protected i e h.apart p;
        index = λ k. ground (
          arith,
          h.index k,
          lookup-delete e.key k c.cache,
          at-remove_left entry_key c.probation c.protected i e h.apart k p,
        );
        probationary = InSegment-remove seg_probation i c.probation h.probationary;
        shielded = h.shielded;
        probation_counted = sub-cost e _ _ _ h.probation_counted gap;
        protected_counted = h.protected_counted;
        counted = sub-cost e _ _ _ h.counted (omega (arith, gap));
        fresh_probation = remove-Below i c.next_id c.probation h.fresh_probation;
        fresh_protected = h.fresh_protected;
      })

  remove_protected-IsValid :
      (i : ℕ) (e : Entry V)
      → e.seg ≡ seg_protected
      → value_of i c.protected ≡ some e
      → IsValid (remove_element c i e)
  unfolding remove_element take_out cost
  remove_protected-IsValid i e s p =
      let gap = total-remove size i e c.protected p in
      rw s (record {
        apart = IsApart-swap entry_key _ _ (
            remove-IsApart entry_key c.protected c.probation i e
              (IsApart-swap entry_key c.probation c.protected h.apart) p);
        index = λ k. ground (
          arith,
          h.index k,
          lookup-delete e.key k c.cache,
          at-remove_right entry_key c.probation c.protected i e h.apart k p,
        );
        probationary = h.probationary;
        shielded = InSegment-remove seg_protected i c.protected h.shielded;
        probation_counted = h.probation_counted;
        protected_counted = sub-cost e _ _ _ h.protected_counted gap;
        counted = sub-cost e _ _ _ h.counted (omega (arith, gap));
        fresh_probation = h.fresh_probation;
        fresh_protected = remove-Below i c.next_id c.protected h.fresh_protected;
      })

  pub remove_element-IsValid : (i : ℕ) (e : Entry V) → Stands c i e → IsValid (remove_element c i e)
  remove_element-IsValid i e (inl (s, p)) = remove_probation-IsValid i e s p
  remove_element-IsValid i e (inr (s, p)) = remove_protected-IsValid i e s p

  pub insert-IsValid :
      (e : Entry V) → e.seg ≡ seg_probation → Map.lookup e.key c.cache ≡ none → IsValid (insert c e)
  unfolding insert total
  insert-IsValid e s absent =
      let here = value_of-Below c.next_id c.next_id c.probation h.fresh_probation (omega arith) in
      let there = value_of-Below c.next_id c.next_id c.protected h.fresh_protected (omega arith) in
      record {
        apart =
            push-IsApart entry_key c.probation c.protected c.next_id e h.apart
              (sym (h.index e.key) ∙ absent) here there;
        index = λ k. ground (
          arith,
          h.index k,
          lookup-insert e.key k c.next_id c.cache,
          at-push_left entry_key c.probation c.protected c.next_id e k,
        );
        probationary = (s, h.probationary);
        shielded = h.shielded;
        probation_counted = add-cost e _ _ _ h.probation_counted (omega arith);
        protected_counted = h.protected_counted;
        counted = add-cost e _ _ _ h.counted (omega arith);
        fresh_probation = (
          omega arith,
          Below-mono c.next_id (suc c.next_id) c.probation (omega arith) h.fresh_probation,
        );
        fresh_protected =
            Below-mono c.next_id (suc c.next_id) c.protected (omega arith) h.fresh_protected;
      }

  -- An entry of the probation list, with another value, comes to its front.
  pub renew_probation-IsValid :
      (i : ℕ) (e e' : Entry V) (curbytes probation_bytes : Int64)
      → value_of i c.probation ≡ some e
      → e'.key ≡ e.key
      → e'.seg ≡ seg_probation
      → (let t = total size (push_front i e' (LinkedList.remove i c.probation)) in
          (curbytes ≡ of_nat (t + total size c.protected)) × (probation_bytes ≡ of_nat t))
      → IsValid (record c {
        probation = push_front i e' (LinkedList.remove i c.probation);
        curbytes = curbytes;
        probation_bytes = probation_bytes;
      })
  renew_probation-IsValid i e e' curbytes probation_bytes p q s counts =
      let a = remove-IsApart entry_key c.probation c.protected i e h.apart p in
      let (absent, here, there) = at-remove_self entry_key c.probation c.protected i e h.apart p in
      record {
        apart =
            push-IsApart entry_key (LinkedList.remove i c.probation) c.protected i e' a
              (rw q absent) here there;
        index = λ k. ground (
          arith,
          h.index k,
          at-remove_left entry_key c.probation c.protected i e h.apart k p,
          at-push_left entry_key (LinkedList.remove i c.probation) c.protected i e' k,
          id_of-value_of entry_key c.probation i e h.apart.left p,
        );
        probationary = (s, InSegment-remove seg_probation i c.probation h.probationary);
        shielded = h.shielded;
        probation_counted = counts.1;
        protected_counted = h.protected_counted;
        counted = counts.0;
        fresh_probation = (
          Below-value_of i c.next_id c.probation e h.fresh_probation p,
          remove-Below i c.next_id c.probation h.fresh_probation,
        );
        fresh_protected = h.fresh_protected;
      }

  -- An entry of the protected list, with another value, comes to its front.
  pub renew_protected-IsValid :
      (i : ℕ) (e e' : Entry V) (curbytes protected_bytes : Int64)
      → value_of i c.protected ≡ some e
      → e'.key ≡ e.key
      → e'.seg ≡ seg_protected
      → (let t = total size (push_front i e' (LinkedList.remove i c.protected)) in
          (curbytes ≡ of_nat (total size c.probation + t)) × (protected_bytes ≡ of_nat t))
      → IsValid (record c {
        protected = push_front i e' (LinkedList.remove i c.protected);
        curbytes = curbytes;
        protected_bytes = protected_bytes;
      })
  renew_protected-IsValid i e e' curbytes protected_bytes p q s counts =
      let swapped = IsApart-swap entry_key c.probation c.protected h.apart in
      let a = remove-IsApart entry_key c.protected c.probation i e swapped p in
      let (absent, here, there) = at-remove_self entry_key c.protected c.probation i e swapped p in
      record {
        apart = IsApart-swap entry_key _ _ (
            push-IsApart entry_key (LinkedList.remove i c.protected) c.probation i e' a
              (rw q absent) here there);
        index = λ k. ground (
          arith,
          h.index k,
          at-remove_right entry_key c.probation c.protected i e h.apart k p,
          at-push_right entry_key c.probation (LinkedList.remove i c.protected) i e' k
              (rw q (ground arith)),
          id_of-value_of entry_key c.protected i e h.apart.right p,
          h.apart.keys e.key,
        );
        probationary = h.probationary;
        shielded = (s, InSegment-remove seg_protected i c.protected h.shielded);
        probation_counted = h.probation_counted;
        protected_counted = counts.1;
        counted = counts.0;
        fresh_probation = h.fresh_probation;
        fresh_protected = (
          Below-value_of i c.next_id c.protected e h.fresh_protected p,
          remove-Below i c.next_id c.protected h.fresh_protected,
        );
      }
