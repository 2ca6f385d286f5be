-- ===== src/Bloom/Exact.antt =====
-- The bits of the Bloom filter and the indexes of the items that were added.
use cachecore.Base.{
  ℕ, zero, suc, ◌<◌, ◌≡◌, ◌≢◌, refl, sym, ◌∙◌, ◌⊎◌, inl, inr, ◌↔◌, true, false, List, [], ◌∷◌, map,
  length, set, All, All-map, Any, Any-map, ap, subst, arith, length-set, Bool-cases,
}
use cachecore.Go.Bytes.{Bytes}
use cachecore.Bloom.{
  BloomFilter, index_loop, indexes, set_loop, add, bit, test_loop, contains, reset,
}
use cachecore.Bloom.Membership.{
  HasBits, indexes-lt, indexes-add, contains-test, arr-add, add-HasBits, add_all,
}

bit-set :
    (arr : List ℕ) (i j : ℕ)
    → i < length arr
    → (bit (set arr i 1) j ≢ 0) ↔ ((i ≡ j) ⊎ (bit arr j ≢ 0))
bit-set [] i j h = absurd (omega arith)
bit-set (b ∷ arr) zero zero h = (λ p. inl refl, λ p e. omega arith)
bit-set (b ∷ arr) zero (suc j) h =
    (λ p. inr p, λ p. elim p [ inl e ↦ absurd (omega arith) | inr q ↦ q ])
bit-set (b ∷ arr) (suc i) zero h =
    (λ p. inr p, λ p. elim p [ inl e ↦ absurd (omega arith) | inr q ↦ q ])
bit-set (b ∷ arr) (suc i) (suc j) h =
    let (f, g) = bit-set arr i j (omega arith) in
    (
      λ p. elim (f p) [ inl e ↦ inl (ap suc e) | inr q ↦ inr q ],
      λ p. elim p [ inl e ↦ g (inl (omega arith)) | inr q ↦ g (inr q) ],
    )

bit-set_loop :
    (is arr : List ℕ) (j : ℕ)
    → All (λ i. i < length arr) is
    → (bit (set_loop is arr) j ≢ 0) ↔ ((bit arr j ≢ 0) ⊎ Any (λ i. i ≡ j) is)
unfolding set_loop
bit-set_loop [] arr j h = (λ p. inl p, λ p. elim p [ inl q ↦ q | inr q ↦ elim q [ ] ])
bit-set_loop (i ∷ is) arr j h =
    let rest : All (λ j. j < length (set arr i 1)) is =
      All-map (λ j. j < length arr) (λ j. j < length (set arr i 1))
        (λ j p. omega (arith, length-set arr i 1)) is h.1 in
    let (f, g) = bit-set_loop is (set arr i 1) j rest in
    let (p, q) = bit-set arr i j h.0 in
    (
      λ b. elim (f b) [
        | inl c ↦ elim (p c) [ inl e ↦ inr (inl e) | inr d ↦ inl d ]
        | inr m ↦ inr (inr m)
      ],
      λ b. elim b [
        | inl c ↦ g (inl (q (inr c)))
        | inr m ↦ elim m [ inl e ↦ g (inl (q (inl e))) | inr n ↦ g (inr n) ]
      ],
    )

-- One of the items has the index.
abbrev pub Touches : BloomFilter → List Bytes → ℕ → Type 0
Touches bf xs j = Any (λ x. Any (λ i. i ≡ j) (indexes bf x)) xs

touch-add :
    (xs : List Bytes) (bf : BloomFilter) (y : Bytes) (j : ℕ)
    → Touches (add bf y) xs j ↔ Touches bf xs j
touch-add xs bf y j = (
  Any-map _ _ (λ x t. subst (λ is. Any (λ i. i ≡ j) is) (indexes-add bf y x) t) xs,
  Any-map _ _ (λ x t. subst (λ is. Any (λ i. i ≡ j) is) (sym (indexes-add bf y x)) t) xs,
)

add_all-HasBits : (xs : List Bytes) (bf : BloomFilter) → HasBits bf → HasBits (add_all bf xs)
unfolding add_all
add_all-HasBits [] bf h = h
add_all-HasBits (x ∷ xs) bf h = add_all-HasBits xs (add bf x) (add-HasBits bf x h)

indexes-add_all :
    (xs : List Bytes) (bf : BloomFilter) (x : Bytes) → indexes (add_all bf xs) x ≡ indexes bf x
unfolding add_all
indexes-add_all [] bf x = refl
indexes-add_all (y ∷ xs) bf x = indexes-add_all xs (add bf y) x ∙ indexes-add bf y x

bit-add_all :
    (xs : List Bytes) (bf : BloomFilter) (j : ℕ)
    → HasBits bf
    → (bit (add_all bf xs).arr j ≢ 0) ↔ ((bit bf.arr j ≢ 0) ⊎ Touches bf xs j)
unfolding add_all
bit-add_all [] bf j h = (λ p. inl p, λ p. elim p [ inl q ↦ q | inr q ↦ elim q [ ] ])
bit-add_all (x ∷ xs) bf j h =
    let (f, g) = bit-add_all xs (add bf x) j (add-HasBits bf x h) in
    let (p, q) = bit-set_loop (indexes bf x) bf.arr j (indexes-lt bf x h) in
    (
      λ b. elim (f b) [
        | inl c ↦ elim (p (subst (λ a. bit a j ≢ 0) (arr-add bf x h) c)) [
          | inl d ↦ inl d
          | inr e ↦ inr (inl e)
        ]
        | inr m ↦ inr (inr ((touch-add xs bf x j).0 m))
      ],
      λ b. elim b [
        | inl c ↦ g (inl (subst (λ a. bit a j ≢ 0) (sym (arr-add bf x h)) (q (inl c))))
        | inr m ↦ elim m [
          | inl e ↦ g (inl (subst (λ a. bit a j ≢ 0) (sym (arr-add bf x h)) (q (inr e))))
          | inr n ↦ g (inr ((touch-add xs bf x j).1 n))
        ]
      ],
    )

test_loop-All : (is arr : List ℕ) → (test_loop is arr ≡ true) ↔ All (λ j. bit arr j ≢ 0) is
unfolding test_loop
test_loop-All [] arr = (λ e. tt, λ a. refl)
test_loop-All (i ∷ is) arr = (
  λ e. (ground arith, (test_loop-All is arr).0 (ground arith)),
  λ a. ground (arith, a.0, (test_loop-All is arr).1 a.1),
)

-- In a filter that `reset` has cleared, every bit is 0.
bit-cleared : (arr : List ℕ) (j : ℕ) → bit (map (λ b. zero) arr) j ≡ 0
bit-cleared [] j = refl
bit-cleared (b ∷ arr) zero = refl
bit-cleared (b ∷ arr) (suc j) = bit-cleared arr j

length-cleared : (arr : List ℕ) → length (map (λ b. zero) arr) ≡ length arr
length-cleared [] = refl
length-cleared (b ∷ arr) = ap suc (length-cleared arr)

pub reset-HasBits : (bf : BloomFilter) → HasBits bf → HasBits (reset bf)
unfolding reset
reset-HasBits bf h = rw (length-cleared bf.arr) h

indexes-reset : (bf : BloomFilter) (x : Bytes) → indexes (reset bf) x ≡ indexes bf x
unfolding indexes reset
indexes-reset bf x = rw (length-cleared bf.arr) refl

touch-reset :
    (xs : List Bytes) (bf : BloomFilter) (j : ℕ) → Touches (reset bf) xs j ↔ Touches bf xs j
touch-reset xs bf j = (
  Any-map _ _ (λ x t. subst (λ is. Any (λ i. i ≡ j) is) (indexes-reset bf x) t) xs,
  Any-map _ _ (λ x t. subst (λ is. Any (λ i. i ≡ j) is) (sym (indexes-reset bf x)) t) xs,
)

bit-reset-add_all :
    (xs : List Bytes) (bf : BloomFilter) (j : ℕ)
    → HasBits bf
    → (bit (add_all (reset bf) xs).arr j ≢ 0) ↔ Touches bf xs j
unfolding reset
bit-reset-add_all xs bf j h =
    let (f, g) = bit-add_all xs (reset bf) j (reset-HasBits bf h) in
    (
      λ b. elim (f b) [
        | inl c ↦ absurd (c (bit-cleared bf.arr j))
        | inr t ↦ (touch-reset xs bf j).0 t
      ],
      λ t. g (inr ((touch-reset xs bf j).1 t)),
    )

-- After a filter with 1 to 2^32 - 1 bits is reset and the items of a list are added, it says that it
-- contains an item exactly when each of the item's indexes is an index of an item of the list.
pub contains-Touches :
    (bf : BloomFilter) (xs : List Bytes) (x : Bytes)
    → HasBits bf
    → (contains (add_all (reset bf) xs) x ≡ true) ↔ All (Touches bf xs) (indexes bf x)
contains-Touches bf xs x h =
    let full = add_all-HasBits xs (reset bf) (reset-HasBits bf h) in
    let e = contains-test (add_all (reset bf) xs) x full in
    let i = indexes-add_all xs (reset bf) x ∙ indexes-reset bf x in
    let (f, g) = test_loop-All (indexes bf x) (add_all (reset bf) xs).arr in
    rw (e, i)
      (
        λ t. All-map _ _ (λ j b. (bit-reset-add_all xs bf j h).0 b) (indexes bf x) (f t),
        λ a. g (All-map _ _ (λ j b. (bit-reset-add_all xs bf j h).1 b) (indexes bf x) a),
      )

loop_untouched :
    (bf : BloomFilter) (n i h1 h2 m : ℕ) → n ≢ 0 → ¬ All (Touches bf []) (index_loop n i h1 h2 m)
unfolding index_loop
loop_untouched bf zero i h1 h2 m p a = p refl
loop_untouched bf (suc n) i h1 h2 m p a = a.0

untouched : (bf : BloomFilter) (x : Bytes) → bf.k ≢ 0 → ¬ All (Touches bf []) (indexes bf x)
unfolding indexes
untouched bf x p a = loop_untouched bf bf.k 0 _ _ _ p a

-- A filter with 1 to 2^32 - 1 bits and at least one hash contains nothing after it is reset.
pub contains-reset :
    (bf : BloomFilter) (x : Bytes) → HasBits bf → bf.k ≢ 0 → contains (reset bf) x ≡ false
unfolding add_all
contains-reset bf x h p = elim (Bool-cases (contains (reset bf) x)) [
  | inl e ↦ absurd (untouched bf x p ((contains-Touches bf [] x h).0 e))
  | inr e ↦ e
]
