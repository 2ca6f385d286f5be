-- ===== src/Lru/Invariant.antt =====
-- The invariant of the LRU cache, and the changes of its list and map.
use cachecore.Base.{
  ℕ, suc, ◌+◌, ◌≡◌, refl, sym, ◌∙◌, ap, inl, inr, none, some, arith, length, Option-cases,
}
use cachecore.Expiry.{Value}
use cachecore.Go.Bytes.{Key}
use cachecore.Go.Int64
use cachecore.Go.Int64.{Int64, of_nat, add-of_nat, change-of_nat, sub-of_nat}
use cachecore.Go.LinkedList
use cachecore.Go.LinkedList.{
  Element, value_of, id_of, push_front, move_to_front, set_value, back, front, total, Distinct,
  Below, value_of-id_of, id_of-remove, id_of-value_of, remove-Distinct, remove-Below,
  value_of-Below, Below-value_of, Below-mono, total-remove, back-eq-some, move_to_front-front,
  set_value-push_front, move_to_front_absent, move_to_front_empty, move_to_front-push_front,
  remove-value_of_self,
}
use cachecore.Go.Map
use cachecore.Go.Map.{lookup-insert, lookup-delete}
use cachecore.Lru.{
  Entry, Cache, entry_key, cost, discard, remove, remove_oldest, touch, update, insert,
}

module _ {V : Type 0} ⦃v : Value V⦄ where
  -- The size of an entry, in bytes.
  abbrev pub size : Entry V → ℕ
  size e = length e.key + v.len e.value

  pub cost-of_nat : (e : Entry V) → cost e ≡ of_nat (size e)
  unfolding cost
  cost-of_nat e = add-of_nat (length e.key) (v.len e.value)

  pub record IsValid (c : Cache V) : Type 0 where
    -- no key and no element stands twice in the list
    pub distinct : Distinct entry_key c.ll
    -- the map leads each key to its element, and holds no other key
    pub index : (k : Key) → Map.lookup k c.cache ≡ id_of entry_key k c.ll
    -- the counter is the size of the entries, modulo 2 ^ 64
    pub counted : c.curbytes ≡ of_nat (total size c.ll)
    pub fresh : Below c.next_id c.ll

  -- To leave the front element alone is to move it to the front.
  pub touch-move_to_front :
      (c : Cache V) (i : ℕ) → touch c i ≡ record c { ll = move_to_front i c.ll }
  unfolding touch
  touch-move_to_front c i = elim (Option-cases (front c.ll)) [
    | inl empty ↦ ground (arith, move_to_front_empty i c.ll empty)
    | inr (f, p) ↦ ground (arith, move_to_front-front c.ll f p)
  ]

  module _ {c : Cache V} (h : IsValid c) where
    -- What a key that the map knows leads to.
    pub found :
        (k : Key) (i : ℕ)
        → Map.lookup k c.cache ≡ some i
        → (e : Entry V) × (value_of i c.ll ≡ some e) × (e.key ≡ k)
    found k i p = value_of-id_of entry_key k c.ll {i = i} h.distinct (sym (h.index k) ∙ p)

    pub discard-IsValid :
        (i : ℕ) (e : Entry V) → value_of i c.ll ≡ some e → IsValid (discard c i e e.key)
    unfolding discard
    discard-IsValid i e p = record {
      distinct = remove-Distinct entry_key c.ll i h.distinct;
      index = λ k. ground (
        arith,
        lookup-delete e.key k c.cache,
        h.index k,
        id_of-remove entry_key c.ll i e k h.distinct p,
      );
      counted = counted;
      fresh = remove-Below i c.next_id c.ll h.fresh;
    }
      where
        gap : total size (LinkedList.remove i c.ll) + size e ≡ total size c.ll
        gap = total-remove size i e c.ll p

        counted : Int64.sub c.curbytes (cost e) ≡ of_nat (total size (LinkedList.remove i c.ll))
        counted =
            rw
              (h.counted, cost-of_nat e, sub-of_nat (total size c.ll) (size e) (omega (arith, gap)))
              (ap of_nat (omega (arith, gap)))

    pub remove-IsValid : (key : Key) → IsValid (remove c key)
    unfolding remove
    remove-IsValid key = elim (Option-cases (Map.lookup key c.cache)) [
      | inl miss ↦ rw (miss, remove) h
      | inr (i, hit) ↦
          let (e, p, q) = found key i hit in rw (hit, remove, p, ← q) (discard-IsValid i e p)
    ]

    pub remove_oldest-IsValid : IsValid (remove_oldest c)
    unfolding remove_oldest
    remove_oldest-IsValid = elim (Option-cases (back c.ll)) [
      | inl empty ↦ rw (empty, remove_oldest) h
      | inr (e, last) ↦
          rw (last, remove_oldest)
            (discard-IsValid e.id e.value (back-eq-some entry_key c.ll e h.distinct last).0)
    ]

    -- An element that is found moves to the front, with a value of the same key.
    pub to_front :
        (i : ℕ) (e e' : Entry V)
        → value_of i c.ll ≡ some e
        → e'.key ≡ e.key
        → Distinct entry_key (push_front i e' (LinkedList.remove i c.ll))
          × ((k : Key)
              → Map.lookup k c.cache
                ≡ id_of entry_key k (push_front i e' (LinkedList.remove i c.ll)))
          × Below c.next_id (push_front i e' (LinkedList.remove i c.ll))
    unfolding id_of
    to_front i e e' p q = (
      (
        remove-value_of_self entry_key c.ll i h.distinct,
        rw q (ground (arith, id_of-remove entry_key c.ll i e e.key h.distinct p)),
        remove-Distinct entry_key c.ll i h.distinct,
      ),
      λ k. ground (
        arith,
        h.index k,
        id_of-remove entry_key c.ll i e k h.distinct p,
        id_of-value_of entry_key c.ll i e h.distinct p,
      ),
      (Below-value_of i c.next_id c.ll e h.fresh p, remove-Below i c.next_id c.ll h.fresh),
    )

    -- A write to the list and the counter that keeps the keys.
    moved-IsValid :
        (i : ℕ) (e e' : Entry V)
        → value_of i c.ll ≡ some e
        → e'.key ≡ e.key
        → (curbytes : Int64) → curbytes ≡ of_nat (size e' + total size (LinkedList.remove i c.ll))
        → IsValid
            (record c { ll = push_front i e' (LinkedList.remove i c.ll); curbytes = curbytes })
    unfolding total
    moved-IsValid i e e' p q curbytes counted =
        let (distinct, index, fresh) = to_front i e e' p q in
        record { distinct = distinct; index = index; counted = counted; fresh = fresh }

    pub touch-IsValid : (i : ℕ) → IsValid (touch c i)
    touch-IsValid i = rw touch-move_to_front (elim (Option-cases (value_of i c.ll)) [
      | inl miss ↦ rw (move_to_front_absent i c.ll miss) h
      | inr (e, p) ↦ rw (move_to_front-push_front i e c.ll p) (
          moved-IsValid i e e p refl c.curbytes
            (h.counted ∙ ap of_nat (omega (arith, total-remove size i e c.ll p))))
    ])

    pub update-IsValid :
        (i : ℕ) (e : Entry V) (value : V) (ttl : Int64) (now : ℕ)
        → value_of i c.ll ≡ some e
        → IsValid (update c i e value ttl now)
    unfolding update
    update-IsValid i e value ttl now p =
        rw (move_to_front-push_front i e c.ll p, set_value-push_front)
          (moved-IsValid i e _ p refl _ counted)
      where
        counted :
            Int64.add c.curbytes (Int64.sub (of_nat (v.len value)) (of_nat (v.len e.value)))
            ≡ of_nat (length e.key + v.len value + total size (LinkedList.remove i c.ll))
        counted = rw h.counted (change-of_nat _ _ _ _ (omega (arith, total-remove size i e c.ll p)))

    pub insert-IsValid :
        (key : Key) (value : V) (ttl : Int64) (now : ℕ)
        → Map.lookup key c.cache ≡ none
        → IsValid (insert c key value ttl now)
    unfolding insert id_of total
    insert-IsValid key value ttl now p = record {
      distinct = (
        value_of-Below c.next_id c.next_id c.ll h.fresh (omega arith),
        ground (arith, h.index key),
        h.distinct,
      );
      index = λ k. ground (arith, lookup-insert key k c.next_id c.cache, h.index k);
      counted = rw (h.counted, cost-of_nat, add-of_nat) (ap of_nat (omega arith));
      fresh = (omega arith, Below-mono c.next_id (suc c.next_id) c.ll (omega arith) h.fresh);
    }
