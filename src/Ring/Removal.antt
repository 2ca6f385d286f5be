-- ===== src/Ring/Removal.antt =====
-- The removal of a node after its addition.
use cachecore.Base.{
  ℕ, zero, suc, ◌+◌, ◌<◌, ◌≡◌, refl, sym, ap, subst, ◌∙◌, ◌⊎◌, inl, inr, true, false, List, [], ◌∷◌,
  ◌++◌, Option, none, some, ltb, leb, ◌==◌, length, Bool-cases, ℕ_discrete, arith, All, Any,
  append-nil,
}
use mathlib.Core.Bool.{true≢false}
use cachecore.Go.Bytes.{Bytes}
use cachecore.Go.IntMap.{
  IntMap, lookup, insert, delete, lookup-insert_ne, lookup-delete_self, lookup-delete_ne,
}
use cachecore.Ring.{
  Ring, passes, replica_hash, insert_sorted, sort, search_ints, key_at, remove_at, remove_hash,
  remove_loop, remove, add, owner, get,
}
use cachecore.Ring.Owners.{hashes, assign, sort-middle, sort-sorted, add-one}
use cachecore.Ring.Search.{IsFirst, search-IsFirst}
use cachecore.Ring.Successor.{
  IsSorted, sort-IsSorted, insert-IsSorted, test-IsMonotone, owner_of, successor, get-successor,
}

-- `delete(m.hashMap, hash)` for each hash of a list.
unfoldable delete_all : List ℕ → IntMap Bytes → IntMap Bytes
delete_all [] m = m
delete_all (h ∷ hs) m = delete_all hs (delete h m)

abbrev First : ℕ → List ℕ → ℕ → Type 0
First a l i = IsFirst (λ i. leb a (key_at l i)) (length l) i

-- The index is one of `a`, without which the list is `s`.
abbrev Place : ℕ → List ℕ → List ℕ → ℕ → Type 0
Place a s l i = (i < length l) × (key_at l i ≡ a) × (remove_at i l ≡ s)

at_head : (a : ℕ) (s : List ℕ) (i : ℕ) → First a (a ∷ s) i → Place a s (a ∷ s) i
unfolding key_at remove_at
at_head a s zero f = (omega arith, refl, refl)
at_head a s (suc i) f = let e = f.before 0 (omega arith) in absurd (ground arith)

at_tail :
    (a b : ℕ) (s l : List ℕ) (i : ℕ)
    → leb a b ≡ false
    → ((j : ℕ) → First a l j → Place a s l j)
    → First a (b ∷ l) i
    → Place a (b ∷ s) (b ∷ l) i
unfolding key_at remove_at
at_tail a b s l zero e rest f =
    absurd (true≢false (sym (f.after 0 (omega arith) (omega arith)) ∙ e))
at_tail a b s l (suc i) e rest f =
    let within = f.within in
    let (p, q, r) = rest i (record {
      within = omega (arith, within);
      before = λ j u. f.before (suc j) (omega arith);
      after = λ j u v. f.after (suc j) (omega arith) (omega arith);
    }) in
    (omega (arith, p), q, ap (λ l. b ∷ l) r)

-- The first index of a key from `a` on is a place of the inserted `a`.
insert_sorted-Place :
    (a : ℕ) (s : List ℕ) (i : ℕ) → First a (insert_sorted a s) i → Place a s (insert_sorted a s) i
unfolding insert_sorted
insert_sorted-Place a [] i f = at_head a [] i f
insert_sorted-Place a (b ∷ s) i f = elim (Bool-cases (leb a b)) [
  | inl e ↦
      let same : insert_sorted a (b ∷ s) ≡ a ∷ b ∷ s = rw e refl in
      subst (λ l. Place a (b ∷ s) l i) (sym same)
        (at_head a (b ∷ s) i (subst (λ l. First a l i) same f))
  | inr e ↦
      let same : insert_sorted a (b ∷ s) ≡ b ∷ insert_sorted a s = rw e refl in
      subst (λ l. Place a (b ∷ s) l i) (sym same)
        (at_tail a b s (insert_sorted a s) i e (insert_sorted-Place a s)
          (subst (λ l. First a l i) same f))
]

remove_hash-insert :
    (m : Ring) (a : ℕ) (s : List ℕ)
    → IsSorted s
    → m.keys ≡ insert_sorted a s
    → remove_hash a m ≡ record m { keys = s; hash_map = delete a m.hash_map }
unfolding remove_hash search_ints
remove_hash-insert m a s p same =
    let l = insert_sorted a s in
    let i = search_ints l a in
    let (q, r, t) =
      insert_sorted-Place a s i
        (search-IsFirst (length l) _ (test-IsMonotone l a (insert-IsSorted a s p))) in
    let below : ltb i (length l) ≡ true = ground (arith, q) in
    let found : (key_at l i == a) ≡ true = ground (arith, r) in
    rw (remove_hash, same, below, found, t) refl

remove_loop-hashes :
    (n i : ℕ) (node : Bytes) (m : Ring) (xs : List ℕ)
    → m.keys ≡ sort (xs ++ hashes m.hash n i node)
    → remove_loop n i node m
      ≡ record m { keys = sort xs; hash_map = delete_all (hashes m.hash n i node) m.hash_map }
unfolding remove_loop hashes delete_all
remove_loop-hashes zero i node m xs e =
    ap (λ l. record m { keys = l }) (e ∙ ap sort (append-nil xs))
remove_loop-hashes (suc n) i node m xs e =
    let a = replica_hash m.hash i node in
    let rest = xs ++ hashes m.hash n (i + 1) node in
    let m' : Ring = record m { keys = sort rest; hash_map = delete a m.hash_map } in
    ap (remove_loop n (i + 1) node) (
      remove_hash-insert m a (sort rest) (sort-IsSorted rest)
        (e ∙ sort-middle xs (hashes m.hash n (i + 1) node) a))
    ∙ remove_loop-hashes n (i + 1) node m' xs refl

-- Whether a list has a hash, and what the map then holds of it.
lookup-delete_all :
    (k : ℕ) (hs : List ℕ) (m : IntMap Bytes)
    → (Any (λ h. h ≡ k) hs × (lookup k (delete_all hs m) ≡ none))
      ⊎ (((key : Bytes) (n : IntMap Bytes) → lookup k (assign hs key n) ≡ lookup k n)
          × (lookup k (delete_all hs m) ≡ lookup k m))
unfolding delete_all assign
lookup-delete_all k [] m = inr (λ key n. refl, refl)
lookup-delete_all k (h ∷ hs) m = elim (lookup-delete_all k hs (delete h m)) [
  | inl (a, e) ↦ inl (inr a, e)
  | inr (f, e) ↦ elim (ℕ_discrete h k) [
    | yes q ↦ inl (inl q, e ∙ subst (λ k. lookup k (delete h m) ≡ none) q (lookup-delete_self h m))
    | no q ↦ inr (
      λ key n. f key (insert h key n) ∙ lookup-insert_ne h k key n q,
      e ∙ lookup-delete_ne h k m q,
    )
  ]
]

member-All : (P : ℕ → Type 0) (k : ℕ) (hs : List ℕ) → All P hs → Any (λ h. h ≡ k) hs → P k
member-All P k [] p q = elim q [ ]
member-All P k (h ∷ hs) p q = elim q [ inl e ↦ subst P e p.0 | inr r ↦ member-All P k hs p.1 r ]

owner-restored :
    (k : ℕ) (hs : List ℕ) (key : Bytes) (m : IntMap Bytes)
    → All (λ h. lookup h m ≡ none) hs
    → owner (delete_all hs (assign hs key m)) k ≡ owner m k
unfolding owner
owner-restored k hs key m new =
    let same : lookup k (delete_all hs (assign hs key m)) ≡ lookup k m =
      elim (lookup-delete_all k hs (assign hs key m)) [
        | inl (a, e) ↦ e ∙ sym (member-All (λ h. lookup h m ≡ none) k hs new a)
        | inr (f, e) ↦ e ∙ f key m
      ] in
    rw (owner, same) refl

remove-add_one :
    (m : Ring) (node : Bytes)
    → let hs = hashes m.hash (passes m.replicas) 0 node in
      remove (node ∷ []) (add (node ∷ []) m)
      ≡ record m { keys = sort m.keys; hash_map = delete_all hs (assign hs node m.hash_map) }
unfolding remove
remove-add_one m node =
    ap (remove (node ∷ [])) (add-one m node)
    ∙ remove_loop-hashes (passes m.replicas) 0 node _ m.keys refl

owner_of-same :
    (m n : Ring) (o : Option ℕ)
    → ((a : ℕ) → owner n.hash_map a ≡ owner m.hash_map a)
    → owner_of n o ≡ owner_of m o
owner_of-same m n none f = refl
owner_of-same m n (some a) f = f a

-- A node that is added to a ring whose keys are sorted and then removed leaves no trace, if the map
-- held none of the hashes of its replicas before: the keys are the old ones, and every lookup
-- answers as before.
pub remove-add :
    (m : Ring) (node key : Bytes)
    → IsSorted m.keys
    → All (λ h. lookup h m.hash_map ≡ none) (hashes m.hash (passes m.replicas) 0 node)
    → ((remove (node ∷ []) (add (node ∷ []) m)).keys ≡ m.keys)
      × (get (remove (node ∷ []) (add (node ∷ []) m)) key ≡ get m key)
remove-add m node key p new =
    let hs = hashes m.hash (passes m.replicas) 0 node in
    let n : Ring = record m {
      keys = m.keys;
      hash_map = delete_all hs (assign hs node m.hash_map);
    } in
    let back : remove (node ∷ []) (add (node ∷ []) m) ≡ n =
      remove-add_one m node ∙ ap (λ l. record n { keys = l }) (sort-sorted m.keys p) in
    (
      ap (λ r. r.keys) back,
      ap (λ r. get r key) back
          ∙ get-successor n key p
          ∙ owner_of-same m n (successor (m.hash key) m.keys)
              (λ a. owner-restored a hs node m.hash_map new)
          ∙ sym (get-successor m key p),
    )
