-- ===== src/Metrics/Sampling.antt =====
-- How many latencies are counted, summed up and sampled.
use native.Mathlib.Omega.{div_any}
use native.Mathlib.Nat.{mod-lt, div-eq_of_lt-le}
use cachecore.Base.{
  ℕ, suc, zero, ◌+◌, ◌*◌, ◌/◌, ◌%◌, ◌<◌, ◌≤◌, ◌≡◌, refl, ap, ◌∙◌, Bool, true, false, ◌==◌,
  if◌then◌else◌, leb, arith, subst, dec_lt,
}
use cachecore.Go.Int64
use cachecore.Go.Int64.{Int64, half, modulus}
use cachecore.Metrics.Latency.{should_sample_latency}

-- The number of samples among `k` observations from the counter `s` on.
unfoldable pub sampled : ℕ → ℕ → ℕ → ℕ
unfolding should_sample_latency
sampled every zero s = 0
sampled every (suc k) s =
    let sample = should_sample_latency true every s in
    let rest = sampled every k sample.0 in if sample.1 then suc rest else rest

quotient_between :
    (k n m : ℕ) → 0 < n → n * k ≤ m → m < n * k + n → (m / n ≡ k) × (n * k + m % n ≡ m)
quotient_between k n m p a b =
    let e : m / n ≡ k = div-eq_of_lt-le n (grind arith) (grind arith) in
    (e, subst (λ q. n * q + m % n ≡ m) e (div_any m n))

-- Counting on by one passes a multiple of `n` or stays below the next one.
quotient_step : (n s : ℕ) → 0 < n → (s + 1) / n ≡ s / n + (if (s + 1) % n == 0 then 1 else 0)
quotient_step n s p =
    let d = div_any s n in
    let r = mod-lt s p in
    elim (dec_lt (s % n + 1) n) [
      | yes q ↦
          let (e, f) = quotient_between (s / n) n (s + 1) p (omega arith) (omega arith) in
          rw e (ground arith)
      | no q ↦
          let above : n * (s / n + 1) ≡ s + 1 = grind arith in
          let (e, f) = quotient_between (s / n + 1) n (s + 1) p (omega arith) (omega arith) in
          rw e (ground arith)
    ]

-- Observations are counted in a word; below 2 ^ 64 it does not wrap around.
add_one : (s : ℕ) → s + 1 < modulus → Int64.add s 1 ≡ s + 1
unfolding Int64.add
add_one s p = omega arith

should_sample :
    (every s : ℕ)
    → 1 < every
    → s + 1 < modulus
    → should_sample_latency true every s ≡ (s + 1, (s + 1) % every == 0)
unfolding should_sample_latency
should_sample every s p q = let e : leb every 1 ≡ false = ground arith in rw (e, add_one s q) refl

sampled-suc :
    (every k s : ℕ)
    → 1 < every
    → s + 1 < modulus
    → sampled every (suc k) s ≡ sampled every k (s + 1) + (if (s + 1) % every == 0 then 1 else 0)
unfolding sampled
sampled-suc every k s p q =
    let count : ℕ × Bool → ℕ =
      λ sample. if sample.1 then suc (sampled every k sample.0) else sampled every k sample.0 in
    ap count (should_sample every s p q) ∙ ground arith

-- With sampling on and one observation in `every` to be sampled, at least 2, the samples among any
-- `k` observations in a row are the multiples of `every` that the counter passes, while it stays below
-- 2 ^ 64: from a multiple on, exactly one observation in `every`.
pub sampled-quotient :
    (every k s : ℕ) → 1 < every → s + k < modulus → sampled every k s + s / every ≡ (s + k) / every
unfolding sampled
sampled-quotient every zero s p q =
    let e : s ≡ s + 0 = omega arith in omega (arith, ap (λ x. x / every) e)
sampled-quotient every (suc k) s p q =
    let e : s + 1 + k ≡ s + suc k = omega arith in
    omega (
      arith,
      sampled-suc every k s p (omega arith),
      quotient_step every s (omega arith),
      sampled-quotient every k (s + 1) p (omega arith),
      ap (λ x. x / every) e,
    )
