-- ===== src/Ring/Owners.antt =====
-- Which nodes the ring answers with, and what the addition of a node changes.
use cachecore.Base.{
  ℕ, zero, suc, ◌+◌, ◌≤◌, ◌≡◌, refl, sym, ap, ◌∙◌, subst, ◌⊎◌, inl, inr, List, [], ◌∷◌, ◌++◌,
  Option, none, some, get_elem?, ℕ_discrete, arith, All, Any, append-nil, append_assoc,
}
use cachecore.Go.Bytes.{Bytes}
use cachecore.Go.IntMap.{IntMap, lookup, insert, lookup-insert_self, lookup-insert_ne}
use cachecore.Ring.{
  Ring, passes, replica_hash, insert_sorted, sort, add_loop, add_each, add, owner, get,
}
use cachecore.Ring.Successor.{
  IsSorted, first_from, successor, sort-IsSorted, owner_of, get-successor,
}

-- The order of insertions does not matter.
insert_sorted_comm :
    (a b : ℕ) (s : List ℕ)
    → insert_sorted a (insert_sorted b s) ≡ insert_sorted b (insert_sorted a s)
unfolding insert_sorted
insert_sorted_comm a b [] = ground arith
insert_sorted_comm a b (c ∷ s) = ground (arith, insert_sorted_comm a b s)

pub sort-middle :
    (xs ys : List ℕ) (y : ℕ) → sort (xs ++ (y ∷ ys)) ≡ insert_sorted y (sort (xs ++ ys))
unfolding sort
sort-middle [] ys y = refl
sort-middle (x ∷ xs) ys y =
    ap (insert_sorted x) (sort-middle xs ys y) ∙ insert_sorted_comm x y (sort (xs ++ ys))

insert-head : (a : ℕ) (s : List ℕ) → All (λ b. a ≤ b) s → insert_sorted a s ≡ a ∷ s
unfolding insert_sorted
insert-head a [] p = refl
insert-head a (b ∷ s) p = ground (arith, p.0)

pub sort-sorted : (s : List ℕ) → IsSorted s → sort s ≡ s
unfolding IsSorted sort
sort-sorted [] p = refl
sort-sorted (a ∷ s) p = ap (insert_sorted a) (sort-sorted s p.1) ∙ insert-head a s p.0

-- A new key takes over what it precedes, and no more.
first_from-insert :
    (h a : ℕ) (s : List ℕ)
    → (first_from h (insert_sorted a s) ≡ some a)
      ⊎ (first_from h (insert_sorted a s) ≡ first_from h s)
unfolding first_from insert_sorted
first_from-insert h a [] = ground arith
first_from-insert h a (b ∷ s) = ground (arith, first_from-insert h a s)

head-insert :
    (a : ℕ) (s : List ℕ)
    → (get_elem? (insert_sorted a s) 0 ≡ some a) ⊎ (get_elem? (insert_sorted a s) 0 ≡ get_elem? s 0)
unfolding insert_sorted
head-insert a [] = ground arith
head-insert a (b ∷ s) = ground arith

successor-insert :
    (h a : ℕ) (s : List ℕ)
    → (successor h (insert_sorted a s) ≡ some a) ⊎ (successor h (insert_sorted a s) ≡ successor h s)
unfolding successor
successor-insert h a s = ground (arith, first_from-insert h a s, head-insert a s)

successor-sort :
    (h : ℕ) (xs hs : List ℕ)
    → (successor h (sort (xs ++ hs)) ≡ successor h (sort xs))
      ⊎ ((a : ℕ) × (successor h (sort (xs ++ hs)) ≡ some a) × Any (λ b. b ≡ a) hs)
successor-sort h xs [] = inl (ap (λ l. successor h (sort l)) (append-nil xs))
successor-sort h xs (a ∷ hs) = elim (successor-insert h a (sort (xs ++ hs))) [
  | inl e ↦ inr (a, rw (sort-middle xs hs a) e, inl refl)
  | inr e ↦ elim (successor-sort h xs hs) [
    | inl f ↦ inl (rw (sort-middle xs hs a) (e ∙ f))
    | inr (b, f, m) ↦ inr (b, rw (sort-middle xs hs a) (e ∙ f), inr m)
  ]
]

-- The hashes of `n` replicas of a node from number `i` on.
unfoldable pub hashes : (Bytes → ℕ) → ℕ → ℕ → Bytes → List ℕ
hashes hash zero i key = []
hashes hash (suc n) i key = replica_hash hash i key ∷ hashes hash n (i + 1) key

-- `m.hashMap[hash] = key` for each hash of a list.
unfoldable pub assign : List ℕ → Bytes → IntMap Bytes → IntMap Bytes
assign [] key m = m
assign (h ∷ hs) key m = assign hs key (insert h key m)

pub add_loop-hashes :
    (n i : ℕ) (key : Bytes) (m : Ring)
    → add_loop n i key m ≡ record m {
      keys = m.keys ++ hashes m.hash n i key;
      hash_map = assign (hashes m.hash n i key) key m.hash_map;
    }
unfolding add_loop hashes assign
add_loop-hashes zero i key m = rw (append-nil m.keys) refl
add_loop-hashes (suc n) i key m =
    add_loop-hashes n (i + 1) key _
    ∙ ap
        (λ l. record m { keys = l; hash_map = assign (hashes m.hash (suc n) i key) key m.hash_map })
        (append_assoc m.keys (replica_hash m.hash i key ∷ []) (hashes m.hash n (i + 1) key))

lookup-insert :
    (a k : ℕ) (key : Bytes) (m : IntMap Bytes)
    → (lookup a (insert k key m) ≡ some key) ⊎ (lookup a (insert k key m) ≡ lookup a m)
lookup-insert a k key m = elim (ℕ_discrete k a) [
  | yes e ↦ inl (subst (λ a. lookup a (insert k key m) ≡ some key) e (lookup-insert_self k key m))
  | no p ↦ inr (lookup-insert_ne k a key m p)
]

lookup-assign :
    (a : ℕ) (hs : List ℕ) (key : Bytes) (m : IntMap Bytes)
    → (lookup a (assign hs key m) ≡ some key) ⊎ (lookup a (assign hs key m) ≡ lookup a m)
unfolding assign
lookup-assign a [] key m = inr refl
lookup-assign a (h ∷ hs) key m = elim (lookup-assign a hs key (insert h key m)) [
  | inl e ↦ inl e
  | inr e ↦ elim (lookup-insert a h key m) [ inl f ↦ inl (e ∙ f) | inr f ↦ inr (e ∙ f) ]
]

lookup-assign_self :
    (a : ℕ) (hs : List ℕ) (key : Bytes) (m : IntMap Bytes)
    → Any (λ b. b ≡ a) hs
    → lookup a (assign hs key m) ≡ some key
unfolding assign
lookup-assign_self a [] key m q = elim q [ ]
lookup-assign_self a (h ∷ hs) key m q = elim q [
  | inl e ↦ elim (lookup-assign a hs key (insert h key m)) [
    | inl f ↦ f
    | inr f ↦ f ∙ subst (λ a. lookup a (insert h key m) ≡ some key) e (lookup-insert_self h key m)
  ]
  | inr r ↦ lookup-assign_self a hs key (insert h key m) r
]

pub add-one :
    (m : Ring) (node : Bytes)
    → add (node ∷ []) m ≡ record m {
      keys = sort (m.keys ++ hashes m.hash (passes m.replicas) 0 node);
      hash_map = assign (hashes m.hash (passes m.replicas) 0 node) node m.hash_map;
    }
unfolding add add_each
add-one m node =
    let sorted : Ring → Ring = λ n. record n { keys = sort n.keys } in
    ap sorted (add_loop-hashes (passes m.replicas) 0 node m)

pub owner-assign :
    (a : ℕ) (hs : List ℕ) (key : Bytes) (m : IntMap Bytes)
    → (owner (assign hs key m) a ≡ key) ⊎ (owner (assign hs key m) a ≡ owner m a)
unfolding owner
owner-assign a hs key m = elim (lookup-assign a hs key m) [
  | inl e ↦ inl (rw (owner, e) refl)
  | inr e ↦ inr (rw (owner, e) refl)
]

pub owner-assign_self :
    (a : ℕ) (hs : List ℕ) (key : Bytes) (m : IntMap Bytes)
    → Any (λ b. b ≡ a) hs
    → owner (assign hs key m) a ≡ key
unfolding owner
owner-assign_self a hs key m q = rw (owner, lookup-assign_self a hs key m q) refl

owner_of-cases :
    (m n : Ring) (o : Option ℕ) (x : Bytes)
    → ((a : ℕ) → (owner n.hash_map a ≡ x) ⊎ (owner n.hash_map a ≡ owner m.hash_map a))
    → (owner_of n o ≡ x) ⊎ (owner_of n o ≡ owner_of m o)
owner_of-cases m n none x f = inr refl
owner_of-cases m n (some a) x f = f a

-- Consistency: after a node is added to a ring whose keys are sorted, whatever keys and hash collisions
-- there are, a lookup answers with the new node or as it did before.
pub get-add :
    (m : Ring) (node key : Bytes)
    → IsSorted m.keys
    → (get (add (node ∷ []) m) key ≡ node) ⊎ (get (add (node ∷ []) m) key ≡ get m key)
get-add m node key p =
    let hs = hashes m.hash (passes m.replicas) 0 node in
    let n : Ring = record m { keys = sort (m.keys ++ hs); hash_map = assign hs node m.hash_map } in
    let old : get m key ≡ owner_of m (successor (m.hash key) (sort m.keys)) =
      get-successor m key p
      ∙ ap (λ s. owner_of m (successor (m.hash key) s)) (sym (sort-sorted m.keys p)) in
    let now : get (add (node ∷ []) m) key
        ≡ owner_of n (successor (m.hash key) (sort (m.keys ++ hs))) =
      ap (λ r. get r key) (add-one m node) ∙ get-successor n key (sort-IsSorted (m.keys ++ hs)) in
    elim (successor-sort (m.hash key) m.keys hs) [
      | inl e ↦
          elim (owner_of-cases m n (successor (m.hash key) (sort m.keys)) node
            (λ a. owner-assign a hs node m.hash_map)) [
              | inl f ↦ inl (now ∙ ap (owner_of n) e ∙ f)
              | inr f ↦ inr (now ∙ ap (owner_of n) e ∙ f ∙ sym old)
            ]
      | inr (a, e, q) ↦ inl (now ∙ ap (owner_of n) e ∙ owner-assign_self a hs node m.hash_map q)
    ]
