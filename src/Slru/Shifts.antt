-- ===== src/Slru/Shifts.antt =====
-- Entries that change the segment, by `demote` and `raise`, and the invariant of the SLRU cache.
use cachecore.Base.{ℕ, suc, ◌≡◌, refl, ◌∙◌, ap, some, arith}
use cachecore.Expiry.{Value}
use cachecore.Go.Int64.{of_nat}
use cachecore.Go.LinkedList
use cachecore.Go.LinkedList.{
  Element, value_of, push_front, back, front, total, or_else, Distinct, Below, remove-Below,
  Below-mono, value_of-Below, total-remove, back-eq-some, Below-value_of, value_of-remove_none,
  id_of-value_of, id_of,
}
use cachecore.Go.Map.{lookup-insert}
use cachecore.Slru.{
  Ratio, seg_probation, seg_protected, Entry, Cache, entry_key, cost, demote, raise,
}
use cachecore.Slru.Invariant.{InSegment-remove, size, IsValid}
use cachecore.Slru.Moves.{sub-cost, add-cost}
use cachecore.Slru.Segments.{
  IsApart-swap, remove-IsApart, push-IsApart, at-remove_left, at-remove_right, at-push_left,
  at-push_right, at-remove_self,
}

module _ {F V : Type 0} ⦃r : Ratio F⦄ ⦃v : Value V⦄ (c : Cache F V) (h : IsValid c) where
  -- The last protected entry goes to the front of the probation list.
  pub demote-IsValid :
      (i : ℕ) (e : Entry V) → value_of i c.protected ≡ some e → IsValid (demote c i e)
  unfolding demote total cost
  demote-IsValid i e p =
      let gap = total-remove size i e c.protected p in
      let swapped = IsApart-swap entry_key c.probation c.protected h.apart in
      let b = remove-IsApart entry_key c.protected c.probation i e swapped p in
      let a = IsApart-swap entry_key _ _ b in
      let (absent, _, _) = at-remove_self entry_key c.protected c.probation i e swapped p in
      record {
        apart =
            push-IsApart entry_key c.probation (LinkedList.remove i c.protected) c.next_id
              (record e { seg = seg_probation }) a (ground arith)
              (value_of-Below c.next_id c.next_id c.probation h.fresh_probation (omega arith))
              (value_of-remove_none i c.next_id c.protected
                (value_of-Below c.next_id c.next_id c.protected h.fresh_protected (omega arith)));
        index = λ k. ground (
          arith,
          h.index k,
          lookup-insert e.key k c.next_id c.cache,
          at-remove_right entry_key c.probation c.protected i e h.apart k p,
          at-push_left entry_key c.probation (LinkedList.remove i c.protected) c.next_id
              (record e { seg = seg_probation }) k,
        );
        probationary = (refl, h.probationary);
        shielded = InSegment-remove seg_protected i c.protected h.shielded;
        probation_counted = add-cost e _ _ _ h.probation_counted (omega arith);
        protected_counted = sub-cost e _ _ _ h.protected_counted gap;
        counted = h.counted ∙ ap of_nat (omega (arith, gap));
        fresh_probation = (
          omega arith,
          Below-mono c.next_id (suc c.next_id) c.probation (omega arith) h.fresh_probation,
        );
        fresh_protected =
            Below-mono c.next_id (suc c.next_id) (LinkedList.remove i c.protected) (omega arith)
              (remove-Below i c.next_id c.protected h.fresh_protected);
      }

  -- An entry that is hit goes to the front of the protected list.
  pub raise-IsValid :
      (i : ℕ) (e : Entry V) → value_of i c.probation ≡ some e → IsValid (raise c i e)
  unfolding raise total cost
  raise-IsValid i e p =
      let gap = total-remove size i e c.probation p in
      let a = remove-IsApart entry_key c.probation c.protected i e h.apart p in
      let (absent, _, _) = at-remove_self entry_key c.probation c.protected i e h.apart p in
      let e' : Entry V = record e { seg = seg_protected } in
      record {
        apart = IsApart-swap entry_key _ _ (
            push-IsApart entry_key c.protected (LinkedList.remove i c.probation) c.next_id e'
              (IsApart-swap entry_key _ _ a) (ground arith)
              (value_of-Below c.next_id c.next_id c.protected h.fresh_protected (omega arith))
              (value_of-remove_none i c.next_id c.probation
                (value_of-Below c.next_id c.next_id c.probation h.fresh_probation (omega arith))));
        index = λ k. ground (
          arith,
          h.index k,
          lookup-insert e.key k c.next_id c.cache,
          at-remove_left entry_key c.probation c.protected i e h.apart k p,
          at-push_right entry_key (LinkedList.remove i c.probation) c.protected c.next_id e' k
              absent,
        );
        probationary = InSegment-remove seg_probation i c.probation h.probationary;
        shielded = (refl, h.shielded);
        probation_counted = sub-cost e _ _ _ h.probation_counted gap;
        protected_counted = add-cost e _ _ _ h.protected_counted (omega arith);
        counted = h.counted ∙ ap of_nat (omega (arith, gap));
        fresh_probation =
            Below-mono c.next_id (suc c.next_id) (LinkedList.remove i c.probation) (omega arith)
              (remove-Below i c.next_id c.probation h.fresh_probation);
        fresh_protected = (
          omega arith,
          Below-mono c.next_id (suc c.next_id) c.protected (omega arith) h.fresh_protected,
        );
      }
