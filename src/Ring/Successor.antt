-- ===== src/Ring/Successor.antt =====
-- The order of the keys of the ring, and the successor of a hash on the circle.
use cachecore.Base.{
  ℕ, zero, suc, ◌%◌, ◌≤◌, ◌<◌, ◌≡◌, refl, ap, ◌∙◌, inl, inr, true, false, List, [], ◌∷◌, Option,
  none, some, leb, ◌==◌, if◌then◌else◌, length, get_elem?, Bool-cases, dec_lt, arith, All,
}
use native.Mathlib.Nat.{mod_self}
use cachecore.Go.Bytes.{Bytes}
use cachecore.Ring.{Ring, insert_sorted, sort, search, key_at, search_ints, owner, get}
use cachecore.Ring.Search.{IsFirst, IsMonotone, search-IsFirst}

-- No key is smaller than the one before it.
unfoldable pub IsSorted : List ℕ → Type 0
IsSorted [] = Unit
IsSorted (a ∷ s) = All (λ b. a ≤ b) s × IsSorted s

-- The first key from `h` on.
unfoldable pub first_from : ℕ → List ℕ → Option ℕ
first_from h [] = none
first_from h (a ∷ s) = if leb h a then some a else first_from h s

-- The next key on the circle: past the last key comes the first one.
unfoldable pub successor : ℕ → List ℕ → Option ℕ
unfolding first_from
successor h s = elim (first_from h s) [ none ↦ get_elem? s 0 | some a ↦ some a ]

pub insert-All : (P : ℕ → Type 0) (a : ℕ) (s : List ℕ) → P a → All P s → All P (insert_sorted a s)
unfolding insert_sorted
insert-All P a [] p q = (p, tt)
insert-All P a (b ∷ s) p q = elim (Bool-cases (leb a b)) [
  | inl e ↦ rw e (p, q)
  | inr e ↦ rw e (q.0, insert-All P a s p q.1)
]

All-le : (a b : ℕ) (s : List ℕ) → a ≤ b → All (λ c. b ≤ c) s → All (λ c. a ≤ c) s
All-le a b [] p q = tt
All-le a b (c ∷ s) p q = (omega arith, All-le a b s p q.1)

pub insert-IsSorted : (a : ℕ) (s : List ℕ) → IsSorted s → IsSorted (insert_sorted a s)
unfolding IsSorted insert_sorted
insert-IsSorted a [] p = (tt, tt)
insert-IsSorted a (b ∷ s) p = elim (Bool-cases (leb a b)) [
  | inl e ↦ rw e ((ground arith, All-le a b s (ground arith) p.0), p)
  | inr e ↦ rw e (insert-All (λ c. b ≤ c) a s (ground arith) p.0, insert-IsSorted a s p.1)
]

pub sort-IsSorted : (s : List ℕ) → IsSorted (sort s)
unfolding IsSorted sort
sort-IsSorted [] = tt
sort-IsSorted (a ∷ s) = insert-IsSorted a (sort s) (sort-IsSorted s)

-- Sorted keys at growing indexes.
key_at-ge : (a : ℕ) (s : List ℕ) (i : ℕ) → All (λ b. a ≤ b) s → i < length s → a ≤ key_at s i
unfolding key_at
key_at-ge a [] i p q = absurd (omega arith)
key_at-ge a (b ∷ s) zero p q = p.0
key_at-ge a (b ∷ s) (suc i) p q = key_at-ge a s i p.1 (omega arith)

key_at_mono : (s : List ℕ) (i j : ℕ) → IsSorted s → i ≤ j → j < length s → key_at s i ≤ key_at s j
unfolding IsSorted key_at
key_at_mono [] i j p q r = absurd (omega arith)
key_at_mono (a ∷ s) zero zero p q r = omega arith
key_at_mono (a ∷ s) zero (suc j) p q r = key_at-ge a s j p.0 (omega arith)
key_at_mono (a ∷ s) (suc i) zero p q r = absurd (omega arith)
key_at_mono (a ∷ s) (suc i) (suc j) p q r = key_at_mono s i j p.1 (omega arith) (omega arith)

pub test-IsMonotone :
    (s : List ℕ) (h : ℕ) → IsSorted s → IsMonotone (λ i. leb h (key_at s i)) (length s)
test-IsMonotone s h p i j q r t = ground (arith, key_at_mono s i j p q r)

-- The first index that passes holds the first key from `h` on.
first_from-IsFirst :
    (s : List ℕ) (h i : ℕ)
    → IsFirst (λ i. leb h (key_at s i)) (length s) i
    → first_from h s ≡ get_elem? s i
unfolding first_from key_at
first_from-IsFirst [] h i f = refl
first_from-IsFirst (a ∷ s) h zero f = ground (arith, f.after 0 (omega arith) (omega arith))
first_from-IsFirst (a ∷ s) h (suc i) f =
    let rest : IsFirst (λ i. leb h (key_at s i)) (length s) i = record {
      within = omega (arith, f.within);
      before = λ j p. f.before (suc j) (omega arith);
      after = λ j p q. f.after (suc j) (omega arith) (omega arith);
    } in
    ground (arith, f.before 0 (omega arith), first_from-IsFirst s h i rest)

get_elem?-key_at : (s : List ℕ) (i : ℕ) → i < length s → get_elem? s i ≡ some (key_at s i)
unfolding key_at
get_elem?-key_at [] i p = absurd (omega arith)
get_elem?-key_at (a ∷ s) zero p = refl
get_elem?-key_at (a ∷ s) (suc i) p = get_elem?-key_at s i (omega arith)

get_elem?-end : (s : List ℕ) → get_elem? s (length s) ≡ none
get_elem?-end [] = refl
get_elem?-end (a ∷ s) = get_elem?-end s

-- The step back to the start, `idx%len(m.keys)`.
successor-IsFirst :
    (s : List ℕ) (h i : ℕ)
    → 0 < length s
    → IsFirst (λ i. leb h (key_at s i)) (length s) i
    → successor h s ≡ some (key_at s (i % length s))
unfolding successor
successor-IsFirst s h i p f = elim (dec_lt i (length s)) [
  | yes q ↦
      let e : i % length s ≡ i = grind arith in
      rw (successor, first_from-IsFirst s h i f, e, get_elem?-key_at s i q) refl
  | no q ↦
      let e : i ≡ length s = omega (arith, f.within) in
      let z : i % length s ≡ 0 = ap (λ j. j % length s) e ∙ mod_self (length s) in
      let g = first_from-IsFirst s h i f ∙ ap (λ i. get_elem? s i) e ∙ get_elem?-end s in
      rw (successor, g, z, get_elem?-key_at s 0 p) refl
]

successor_empty : (s : List ℕ) (h : ℕ) → length s ≡ 0 → successor h s ≡ none
unfolding successor
successor_empty [] h p = refl
successor_empty (a ∷ s) h p = absurd (omega arith)

-- The node that has a key of the circle, `""` where there is none.
abbrev pub owner_of : Ring → Option ℕ → Bytes
owner_of m none = []
owner_of m (some k) = owner m.hash_map k

-- In a ring whose keys are sorted, `Get` returns the owner of the first key from the hash of its
-- argument on, and past the last key that of the first key; in an empty ring it returns "".
pub get-successor :
    (m : Ring) (key : Bytes)
    → IsSorted m.keys
    → get m key ≡ owner_of m (successor (m.hash key) m.keys)
unfolding get search_ints
get-successor m key p =
    let h = m.hash key in
    let i = search (length m.keys) (λ i. leb h (key_at m.keys i)) in
    elim (dec_lt 0 (length m.keys)) [
      | yes q ↦
          let f =
            search-IsFirst (length m.keys) (λ i. leb h (key_at m.keys i))
              (test-IsMonotone m.keys h p) in
          let e : (length m.keys == 0) ≡ false = ground arith in
          rw (e, successor-IsFirst m.keys h i q f) refl
      | no q ↦
          let e : (length m.keys == 0) ≡ true = ground arith in
          rw (e, successor_empty m.keys h (omega arith)) refl
    ]
