-- ===== src/Ring/Search.antt =====
-- The binary search of `sort.Search`, for monotone tests.
use cachecore.Base.{
  ℕ, zero, suc, ◌+◌, ◌-◌, ◌/◌, ◌≤◌, ◌<◌, ◌≡◌, Bool, true, false, arith, ltb, Bool-cases, dec_lt,
  inl, inr,
}
use cachecore.Ring.{search_loop, search}

-- `i` is the first index from which the test is passed, among those below `n`.
pub record IsFirst (f : ℕ → Bool) (n i : ℕ) : Type 0 where
  pub within : i ≤ n
  pub before : (j : ℕ) → j < i → f j ≡ false
  pub after : (j : ℕ) → i ≤ j → j < n → f j ≡ true

-- A test on sorted values: once passed it stays passed.
abbrev pub IsMonotone : (ℕ → Bool) → ℕ → Type 0
IsMonotone f n = (i j : ℕ) → i ≤ j → j < n → f i ≡ true → f j ≡ true

fails :
    (f : ℕ → Bool) (n : ℕ)
    → IsMonotone f n
    → (h : ℕ) → f h ≡ false
    → h < n
    → (k : ℕ) → k ≤ h
    → f k ≡ false
fails f n mono h e p k q = elim (Bool-cases (f k)) [
  | inl t ↦ ground (arith, mono k h q p t)
  | inr t ↦ t
]

search_loop-IsFirst :
    (fuel : ℕ) (f : ℕ → Bool) (n i j : ℕ)
    → IsMonotone f n
    → j - i ≤ fuel
    → i ≤ j
    → j ≤ n
    → ((k : ℕ) → k < i → f k ≡ false)
    → ((k : ℕ) → j ≤ k → k < n → f k ≡ true)
    → IsFirst f n (search_loop fuel f i j)
unfolding search_loop
search_loop-IsFirst zero f n i j mono p q r b a = record {
  within = omega arith;
  before = b;
  after = λ k u v. a k (omega arith) v;
}
search_loop-IsFirst (suc fuel) f n i j mono p q r b a = elim (dec_lt i j) [
  | no s ↦
      let e : ltb i j ≡ false = ground arith in
      rw e (record { within = omega arith; before = b; after = λ k u v. a k (omega arith) v })
  | yes s ↦
      let e : ltb i j ≡ true = ground arith in
      let h = (i + j) / 2 in
      elim (Bool-cases (f h)) [
        | inl t ↦
            rw (e, t)
              (search_loop-IsFirst fuel f n i h mono (omega arith) (omega arith) (omega arith) b
                (λ k u v. mono h k u v t))
        | inr t ↦
            rw (e, t)
              (search_loop-IsFirst fuel f n (h + 1) j mono (omega arith) (omega arith) r
                (λ k u. fails f n mono h t (omega arith) k (omega arith)) a)
      ]
]

-- For a test on 0 to `n - 1` that stays passed once it is passed, the binary search returns the first index
-- that passes it, or `n`.
pub search-IsFirst : (n : ℕ) (f : ℕ → Bool) → IsMonotone f n → IsFirst f n (search n f)
unfolding search
search-IsFirst n f mono =
    search_loop-IsFirst n f n 0 n mono (omega arith) (omega arith) (omega arith)
      (λ k p. absurd (omega arith)) (λ k p q. absurd (omega arith))
