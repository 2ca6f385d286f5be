-- ===== src/Slru/Segments.antt =====
-- Two lists of elements, one for each segment, with no identity and no key twice in both together.
use cachecore.Base.{ℕ, ◌≡◌, ite, ◌⊎◌, inl, inr, List, Option, none, some, arith, Option-cases}
use cachecore.Go.Bytes.{Key, key_dec}
use cachecore.Go.LinkedList
use cachecore.Go.LinkedList.{
  Element, value_of, id_of, find, push_front, or_else, Distinct, value_of-id_of, id_of-remove,
  id_of-value_of, find-remove, find-value_of, find-id_of-none, remove-Distinct,
  remove-value_of_self, value_of-remove_ne, value_of-remove_none, id_of-remove_none,
}

module _ {A : Type 0} (key : A → Key) where
  pub record IsApart (p q : List (Element A)) : Type 0 where
    pub left : Distinct key p
    pub right : Distinct key q
    pub keys : (k : Key) → (id_of key k p ≡ none) ⊎ (id_of key k q ≡ none)
    pub ids : (i : ℕ) → (value_of i p ≡ none) ⊎ (value_of i q ≡ none)

  -- Where a key stands, in either list.
  abbrev pub at : Key → List (Element A) → List (Element A) → Option ℕ
  at k p q = or_else (id_of key k p) (id_of key k q)

  abbrev pub find_in : Key → List (Element A) → List (Element A) → Option A
  find_in k p q = or_else (find key k p) (find key k q)

  pub IsApart-swap : (p q : List (Element A)) → IsApart p q → IsApart q p
  IsApart-swap p q a = record {
    left = a.right;
    right = a.left;
    keys = λ k. ground (arith, a.keys k);
    ids = λ i. ground (arith, a.ids i);
  }

  module _ (p q : List (Element A)) (i : ℕ) (a : A) (h : IsApart p q) where
    -- An element leaves its list.
    pub remove-IsApart : value_of i p ≡ some a → IsApart (LinkedList.remove i p) q
    remove-IsApart e = record {
      left = remove-Distinct key p i h.left;
      right = h.right;
      keys = λ k. ground (arith, h.keys k, id_of-remove_none key i k p);
      ids = λ j. ground (arith, h.ids j, value_of-remove_none i j p);
    }

    pub at-remove_left :
        (k : Key)
        → value_of i p ≡ some a
        → at k (LinkedList.remove i p) q ≡ ite (key_dec (key a) k) none (at k p q)
    at-remove_left k e = ground (
      arith,
      h.keys k,
      h.keys (key a),
      id_of-remove key p i a k h.left e,
      id_of-value_of key p i a h.left e,
    )

    pub at-remove_right :
        (k : Key)
        → value_of i q ≡ some a
        → at k p (LinkedList.remove i q) ≡ ite (key_dec (key a) k) none (at k p q)
    at-remove_right k e = ground (
      arith,
      h.keys k,
      h.keys (key a),
      id_of-remove key q i a k h.right e,
      id_of-value_of key q i a h.right e,
    )

    pub find_in-remove_left :
        (k : Key)
        → value_of i p ≡ some a
        → find_in k (LinkedList.remove i p) q ≡ ite (key_dec (key a) k) none (find_in k p q)
    find_in-remove_left k e = ground (
      arith,
      h.keys (key a),
      find-remove key p i a k h.left e,
      id_of-value_of key p i a h.left e,
      find-id_of-none key (key a) q,
    )

    pub find_in-remove_right :
        (k : Key)
        → value_of i q ≡ some a
        → find_in k p (LinkedList.remove i q) ≡ ite (key_dec (key a) k) none (find_in k p q)
    find_in-remove_right k e = ground (
      arith,
      h.keys (key a),
      find-remove key q i a k h.right e,
      id_of-value_of key q i a h.right e,
      find-id_of-none key (key a) p,
    )

    -- An element of a new key and identity comes to the front of a list.
    pub push-IsApart :
        at (key a) p q ≡ none
        → value_of i p ≡ none
        → value_of i q ≡ none
        → IsApart (push_front i a p) q
    unfolding id_of value_of
    push-IsApart absent fp fq = record {
      left = (fp, ground arith, h.left);
      right = h.right;
      keys = λ k. ground (arith, h.keys k);
      ids = λ j. ground (arith, h.ids j);
    }

    -- What no list holds once an element has left.
    pub at-remove_self :
        value_of i p ≡ some a
        → (at (key a) (LinkedList.remove i p) q ≡ none)
          × (value_of i (LinkedList.remove i p) ≡ none)
          × (value_of i q ≡ none)
    at-remove_self e = (
      ground (arith, at-remove_left (key a) e),
      remove-value_of_self key p i h.left,
      ground (arith, h.ids i),
    )

  pub at-push_left :
      (p q : List (Element A)) (i : ℕ) (a : A) (k : Key)
      → at k (push_front i a p) q ≡ ite (key_dec (key a) k) (some i) (at k p q)
  unfolding id_of
  at-push_left p q i a k = ground arith

  pub at-push_right :
      (p q : List (Element A)) (i : ℕ) (a : A) (k : Key)
      → at (key a) p q ≡ none
      → at k p (push_front i a q) ≡ ite (key_dec (key a) k) (some i) (at k p q)
  unfolding id_of
  at-push_right p q i a k h = ground arith

  pub find_in-push_left :
      (p q : List (Element A)) (i : ℕ) (a : A) (k : Key)
      → find_in k (push_front i a p) q ≡ ite (key_dec (key a) k) (some a) (find_in k p q)
  unfolding find
  find_in-push_left p q i a k = ground arith

  pub find_in-push_right :
      (p q : List (Element A)) (i : ℕ) (a : A) (k : Key)
      → at (key a) p q ≡ none
      → find_in k p (push_front i a q) ≡ ite (key_dec (key a) k) (some a) (find_in k p q)
  unfolding find
  find_in-push_right p q i a k h = ground (arith, find-id_of-none key (key a) p)

  -- A key leads to an element of one of the lists, with that key.
  pub located :
      (p q : List (Element A)) (k : Key) (i : ℕ)
      → IsApart p q
      → at k p q ≡ some i
      → (a : A) × (or_else (value_of i p) (value_of i q) ≡ some a)
        × (key a ≡ k)
        × (find_in k p q ≡ some a)
        × ((value_of i p ≡ some a) ⊎ (value_of i q ≡ some a))
  located p q k i h e = elim (Option-cases (id_of key k p)) [
    | inl absent ↦
        let (a, v, w) = value_of-id_of key k q {i = i} h.right (ground arith) in
        (
          a,
          ground (arith, h.ids i),
          w,
          ground (arith, find-id_of-none key k p absent, find-value_of key q i a h.right v),
          inr v,
        )
    | inr (j, there) ↦
        let (a, v, w) = value_of-id_of key k p {i = i} h.left (ground arith) in
        (a, ground arith, w, ground (arith, find-value_of key p i a h.left v), inl v)
  ]

  pub find_in-at-none : (p q : List (Element A)) (k : Key) → at k p q ≡ none → find_in k p q ≡ none
  find_in-at-none p q k h = ground (arith, find-id_of-none key k p, find-id_of-none key k q)
