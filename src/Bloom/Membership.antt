-- ===== src/Bloom/Membership.antt =====
-- bloomfilter/bloomfilter.go: what `Contains` answers for items that were added.
use cachecore.Base.{
  ℕ, zero, suc, ◌+◌, ◌%◌, ◌<◌, ◌≡◌, ◌≢◌, refl, ◌∙◌, true, List, [], ◌∷◌, length, set, length-set,
  All, arith, All-map, sym,
}
use cachecore.Go.Bytes.{Bytes}
use cachecore.Go.Hash.{modulus32}
use cachecore.Bloom.{BloomFilter, index_loop, indexes, set_loop, add, bit, test_loop, contains}

-- The size of the array is a `uint32` that is not 0.
abbrev pub HasBits : BloomFilter → Type 0
HasBits bf = (0 < length bf.arr) × (length bf.arr < modulus32)

index_loop-lt : (n i h1 h2 m : ℕ) → 0 < m → All (λ idx. idx < m) (index_loop n i h1 h2 m)
unfolding index_loop
index_loop-lt zero i h1 h2 m p = tt
index_loop-lt (suc n) i h1 h2 m p = (omega arith, index_loop-lt n (i + 1) h1 h2 m p)

-- Every index that the filter reads or writes is within the array.
pub indexes-lt :
    (bf : BloomFilter) (item : Bytes)
    → HasBits bf
    → All (λ idx. idx < length bf.arr) (indexes bf item)
unfolding indexes
indexes-lt bf item h =
    let e : length bf.arr % modulus32 ≡ length bf.arr = omega arith in
    rw e (index_loop-lt bf.k 0 _ _ (length bf.arr) h.0)

pub length-set_loop : (is arr : List ℕ) → length (set_loop is arr) ≡ length arr
unfolding set_loop
length-set_loop [] arr = refl
length-set_loop (i ∷ is) arr = length-set_loop is (set arr i 1) ∙ length-set arr i 1

-- A bit that is set stays set.
bit-set : (arr : List ℕ) (i j : ℕ) → bit arr j ≢ 0 → bit (set arr i 1) j ≢ 0
bit-set [] i j h = h
bit-set (b ∷ arr) zero zero h = omega arith
bit-set (b ∷ arr) zero (suc j) h = h
bit-set (b ∷ arr) (suc i) zero h = h
bit-set (b ∷ arr) (suc i) (suc j) h = bit-set arr i j h

bit-set_loop : (is arr : List ℕ) (j : ℕ) → bit arr j ≢ 0 → bit (set_loop is arr) j ≢ 0
unfolding set_loop
bit-set_loop [] arr j h = h
bit-set_loop (i ∷ is) arr j h = bit-set_loop is (set arr i 1) j (bit-set arr i j h)

bit-set_self : (arr : List ℕ) (i : ℕ) → i < length arr → bit (set arr i 1) i ≢ 0
bit-set_self [] i h = absurd (omega arith)
bit-set_self (b ∷ arr) zero h = omega arith
bit-set_self (b ∷ arr) (suc i) h = bit-set_self arr i (omega arith)

test-set_loop :
    (is js arr : List ℕ) → test_loop js arr ≡ true → test_loop js (set_loop is arr) ≡ true
unfolding test_loop
test-set_loop is [] arr h = refl
test-set_loop is (j ∷ js) arr h = ground (arith, bit-set_loop is arr j, test-set_loop is js arr)

test-set_loop_self :
    (is arr : List ℕ) → All (λ i. i < length arr) is → test_loop is (set_loop is arr) ≡ true
unfolding test_loop set_loop
test-set_loop_self [] arr h = refl
test-set_loop_self (i ∷ is) arr h =
    let rest : All (λ j. j < length (set arr i 1)) is =
      All-map (λ j. j < length arr) (λ j. j < length (set arr i 1))
        (λ j p. omega (arith, length-set arr i 1)) is h.1 in
    ground (
      arith,
      bit-set_loop is (set arr i 1) i (bit-set_self arr i h.0),
      test-set_loop_self is (set arr i 1) rest,
    )

-- `add` changes neither the size nor the number of hashes, on which the indexes depend.
pub length-add : (bf : BloomFilter) (item : Bytes) → length (add bf item).arr ≡ length bf.arr
unfolding add
length-add bf item = ground (arith, length-set_loop (indexes bf item) bf.arr)

pub k-add : (bf : BloomFilter) (item : Bytes) → (add bf item).k ≡ bf.k
unfolding add
k-add bf item = ground arith

pub indexes-add : (bf : BloomFilter) (item x : Bytes) → indexes (add bf item) x ≡ indexes bf x
unfolding indexes
indexes-add bf item x = rw (length-add bf item, k-add bf item) refl

pub add-HasBits : (bf : BloomFilter) (item : Bytes) → HasBits bf → HasBits (add bf item)
add-HasBits bf item h = rw (length-add bf item) h

pub contains-test :
    (bf : BloomFilter) (x : Bytes) → HasBits bf → contains bf x ≡ test_loop (indexes bf x) bf.arr
unfolding contains
contains-test bf x h = ground arith

pub arr-add :
    (bf : BloomFilter) (x : Bytes) → HasBits bf → (add bf x).arr ≡ set_loop (indexes bf x) bf.arr
unfolding add
arr-add bf x h = ground arith

pub contains-add_self : (bf : BloomFilter) (x : Bytes) → HasBits bf → contains (add bf x) x ≡ true
contains-add_self bf x h =
    rw (contains-test (add bf x) x (add-HasBits bf x h), indexes-add bf x x, arr-add bf x h)
      (test-set_loop_self (indexes bf x) bf.arr (indexes-lt bf x h))

pub contains-add :
    (bf : BloomFilter) (y x : Bytes)
    → HasBits bf
    → contains bf x ≡ true
    → contains (add bf y) x ≡ true
contains-add bf y x h c =
    rw (contains-test (add bf y) x (add-HasBits bf y h), indexes-add bf y x, arr-add bf y h)
      (test-set_loop (indexes bf y) (indexes bf x) bf.arr (sym (contains-test bf x h) ∙ c))

-- The filter after the items of a list are added in its order.
unfoldable pub add_all : BloomFilter → List Bytes → BloomFilter
add_all bf [] = bf
add_all bf (x ∷ xs) = add_all (add bf x) xs

contains-add_all :
    (xs : List Bytes) (bf : BloomFilter) (x : Bytes)
    → HasBits bf
    → contains bf x ≡ true
    → contains (add_all bf xs) x ≡ true
unfolding add_all
contains-add_all [] bf x h c = c
contains-add_all (y ∷ xs) bf x h c =
    contains-add_all xs (add bf y) x (add-HasBits bf y h) (contains-add bf y x h c)

-- There are no false negatives: after any number of items are added to a filter whose array has
-- between 1 and 2^32 - 1 bits, the filter says of each of them that it contains it.
pub contains-added :
    (xs : List Bytes) (bf : BloomFilter)
    → HasBits bf
    → All (λ x. contains (add_all bf xs) x ≡ true) xs
unfolding add_all
contains-added [] bf h = tt
contains-added (x ∷ xs) bf h = (
  contains-add_all xs (add bf x) x (add-HasBits bf x h) (contains-add_self bf x h),
  contains-added xs (add bf x) (add-HasBits bf x h),
)
