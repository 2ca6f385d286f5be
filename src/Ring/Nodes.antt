-- ===== src/Ring/Nodes.antt =====
-- The nodes of a ring, and the answers of its lookups.
use cachecore.Base.{
  ℕ, zero, suc, ◌+◌, ◌≤◌, ◌<◌, ◌≡◌, refl, sym, ap, ◌∙◌, subst, inl, inr, true, List, [], ◌∷◌,
  Option, some, leb, length, length-append, Bool-cases, Option-cases, arith, All, All-append,
  All-map, Any,
}
use cachecore.Go.Bytes.{Bytes}
use cachecore.Go.Int64.{Int64, slt}
use cachecore.Ring.{
  Ring, new, passes, replica_hash, insert_sorted, sort, add_loop, add_each, add, owner, get,
}
use cachecore.Ring.Successor.{
  IsSorted, first_from, successor, sort-IsSorted, insert-All, owner_of, get-successor,
}
use cachecore.Ring.Owners.{hashes, add_loop-hashes, owner-assign, owner-assign_self, assign}

-- Each key of the ring has an owner with the property.
abbrev pub HasOwners : (Bytes → Type 0) → Ring → Type 0
HasOwners N m = All (λ k. N (owner m.hash_map k)) m.keys

All-members : (P : ℕ → Type 0) (xs : List ℕ) → ((x : ℕ) → Any (λ y. y ≡ x) xs → P x) → All P xs
All-members P [] f = tt
All-members P (x ∷ xs) f = (f x (inl refl), All-members P xs (λ y q. f y (inr q)))

sort-All : (P : ℕ → Type 0) (s : List ℕ) → All P s → All P (sort s)
unfolding sort
sort-All P [] p = tt
sort-All P (a ∷ s) p = insert-All P a (sort s) p.0 (sort-All P s p.1)

add_loop-HasOwners :
    (N : Bytes → Type 0) (n i : ℕ) (key : Bytes) (m : Ring)
    → N key
    → HasOwners N m
    → HasOwners N (add_loop n i key m)
add_loop-HasOwners N n i key m p q =
    let hs = hashes m.hash n i key in
    let P : ℕ → Type 0 = λ k. N (owner (assign hs key m.hash_map) k) in
    let old : All P m.keys =
      All-map (λ k. N (owner m.hash_map k)) P
        (λ k r. elim (owner-assign k hs key m.hash_map) [
          | inl e ↦ subst N (sym e) p
          | inr e ↦ subst N (sym e) r
        ])
        m.keys q in
    let now : All P hs =
      All-members P hs (λ k r. subst N (sym (owner-assign_self k hs key m.hash_map r)) p) in
    subst (HasOwners N) (sym (add_loop-hashes n i key m)) (All-append P m.keys hs old now)

add_each-HasOwners :
    (N : Bytes → Type 0) (keys : List Bytes) (m : Ring)
    → All N keys
    → HasOwners N m
    → HasOwners N (add_each keys m)
unfolding add_each
add_each-HasOwners N [] m p q = q
add_each-HasOwners N (key ∷ keys) m p q =
    add_each-HasOwners N keys (add_loop (passes m.replicas) 0 key m) p.1
      (add_loop-HasOwners N (passes m.replicas) 0 key m p.0 q)

pub add-HasOwners :
    (N : Bytes → Type 0) (keys : List Bytes) (m : Ring)
    → All N keys
    → HasOwners N m
    → HasOwners N (add keys m)
unfolding add
add-HasOwners N keys m p q = sort-All _ (add_each keys m).keys (add_each-HasOwners N keys m p q)

pub add-IsSorted : (keys : List Bytes) (m : Ring) → IsSorted (add keys m).keys
unfolding add
add-IsSorted keys m = sort-IsSorted (add_each keys m).keys

first_from-All :
    (P : ℕ → Type 0) (h : ℕ) (s : List ℕ) (k : ℕ) → All P s → first_from h s ≡ some k → P k
unfolding first_from
first_from-All P h [] k p e = absurd (ground arith)
first_from-All P h (a ∷ s) k p e = elim (Bool-cases (leb h a)) [
  | inl t ↦ subst P (ground arith) p.0
  | inr t ↦ first_from-All P h s k p.1 (ground arith)
]

-- The successor is one of the keys.
successor-All :
    (P : ℕ → Type 0) (h : ℕ) (s : List ℕ)
    → All P s
    → 0 < length s
    → (k : ℕ) × (successor h s ≡ some k) × P k
unfolding successor
successor-All P h [] p q = absurd (omega arith)
successor-All P h (a ∷ s) p q = elim (Option-cases (first_from h (a ∷ s))) [
  | inl e ↦ (a, ground arith, p.0)
  | inr (k, e) ↦ (k, ground arith, first_from-All P h (a ∷ s) k p e)
]

-- In a ring with sorted keys, at least one, whose keys have owners with a property, every lookup
-- answers with a node that has the property.
pub get-HasOwners :
    (N : Bytes → Type 0) (m : Ring) (key : Bytes)
    → IsSorted m.keys
    → HasOwners N m
    → 0 < length m.keys
    → N (get m key)
get-HasOwners N m key p q r =
    let (k, e, n) = successor-All (λ k. N (owner m.hash_map k)) (m.hash key) m.keys q r in
    subst N (sym (get-successor m key p ∙ ap (owner_of m) e)) n

length-insert_sorted : (a : ℕ) (s : List ℕ) → length (insert_sorted a s) ≡ suc (length s)
unfolding insert_sorted
length-insert_sorted a [] = refl
length-insert_sorted a (b ∷ s) = ground (arith, length-insert_sorted a s)

length-sort : (s : List ℕ) → length (sort s) ≡ length s
unfolding sort
length-sort [] = refl
length-sort (a ∷ s) = length-insert_sorted a (sort s) ∙ ap suc (length-sort s)

length-add_loop :
    (n i : ℕ) (key : Bytes) (m : Ring) → length (add_loop n i key m).keys ≡ length m.keys + n
unfolding add_loop
length-add_loop zero i key m = omega arith
length-add_loop (suc n) i key m =
    omega (
      arith,
      length-add_loop n (i + 1) key _,
      length-append m.keys (replica_hash m.hash i key ∷ []),
    )

length-add_each : (keys : List Bytes) (m : Ring) → length m.keys ≤ length (add_each keys m).keys
unfolding add_each
length-add_each [] m = omega arith
length-add_each (key ∷ keys) m = omega (
  arith,
  length-add_each keys (add_loop (passes m.replicas) 0 key m),
  length-add_loop (passes m.replicas) 0 key m,
)

passes_pos : (n : Int64) → slt 0 n ≡ true → 0 < passes n
unfolding passes slt
passes_pos n p = ground arith

pub members :
    (xs all : List Bytes) (f : (x : Bytes) → Any (λ y. y ≡ x) xs → Any (λ y. y ≡ x) all)
    → All (λ x. Any (λ y. y ≡ x) all) xs
members [] all f = tt
members (x ∷ xs) all f = (f x (inl refl), members xs all (λ y q. f y (inr q)))

-- A ring made with a positive number of replicas, to which a list of at least one node is added,
-- answers every lookup with a node of the list, whatever the hash function is.
pub get-added :
    (r : Int64) (fn : Option (Bytes → ℕ)) (node : Bytes) (nodes : List Bytes) (key : Bytes)
    → slt 0 r ≡ true
    → Any (λ x. x ≡ get (add (node ∷ nodes) (new r fn)) key) (node ∷ nodes)
unfolding new add add_each
get-added r fn node nodes key p =
    let all = node ∷ nodes in
    get-HasOwners (λ x. Any (λ y. y ≡ x) all) (add all (new r fn)) key (add-IsSorted all (new r fn))
      (add-HasOwners _ all (new r fn) (members all all (λ x q. q)) tt)
      (omega (
        arith,
        length-sort (add_each all (new r fn)).keys,
        length-add_each nodes (add_loop (passes r) 0 node (new r fn)),
        length-add_loop (passes r) 0 node (new r fn),
        passes_pos r p,
      ))
