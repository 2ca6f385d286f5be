-- ===== src/Go/Int64.antt =====
-- `int64` as a word of 64 bits: a number below 2 ^ 64, with wrap-around and the signed order.
-- `time.Duration` is an `int64` too.
use cachecore.Base.{ℕ, ◌+◌, ◌-◌, ◌%◌, ◌^◌, ◌≤◌, ◌<◌, ◌≡◌, Bool, true, arith, ltb}

abbrev pub Int64 : Type 0
Int64 = ℕ

abbrev pub modulus : ℕ
modulus = 2 ^ 64

-- Words from here on are the negative numbers.
abbrev pub half : ℕ
half = 2 ^ 63

-- The conversion `int64(n)` of a length.
unfoldable pub of_nat : ℕ → Int64
of_nat n = n % modulus

unfoldable pub add : Int64 → Int64 → Int64
add a b = (a + b) % modulus

unfoldable pub sub : Int64 → Int64 → Int64
sub a b = (a + modulus - b % modulus) % modulus

unfoldable pub neg : Int64 → Int64
neg a = (modulus - a % modulus) % modulus

-- The signed order: the sign bit flipped, two words compare as natural numbers do.
unfoldable pub slt : Int64 → Int64 → Bool
slt a b = ltb ((a + half) % modulus) ((b + half) % modulus)

pub slt_nonneg : (a b : ℕ) → a < half → b < half → slt a b ≡ ltb a b
unfolding slt
slt_nonneg a b ha hb = ground arith

pub slt_negative : (a b : ℕ) → a < half → half ≤ b → b < modulus → slt b a ≡ true
unfolding slt
slt_negative a b ha hb h = ground arith

pub of_nat_small : (n : ℕ) → n < modulus → of_nat n ≡ n
unfolding of_nat
of_nat_small n h = omega arith

-- A counter that holds a total modulo 2 ^ 64 still does after an addition.
pub add-of_nat : (a b : ℕ) → add (of_nat a) (of_nat b) ≡ of_nat (a + b)
unfolding add of_nat
add-of_nat a b = omega arith

pub sub-of_nat : (a b : ℕ) → b ≤ a → sub (of_nat a) (of_nat b) ≡ of_nat (a - b)
unfolding sub of_nat
sub-of_nat a b h = omega arith

pub of_nat-lt : (a : ℕ) → of_nat a < modulus
unfolding of_nat
of_nat-lt a = omega arith

-- `total += new - old`, where the difference may be negative.
pub change-of_nat :
    (t old new t' : ℕ)
    → t' + old ≡ t + new
    → add (of_nat t) (sub (of_nat new) (of_nat old)) ≡ of_nat t'
unfolding add sub of_nat
change-of_nat t old new t' h = omega arith

pub slt-pos : (a : ℕ) → 0 < a → a < half → slt 0 a ≡ true
unfolding slt
slt-pos a p q = ground arith

pub add-lt : (a b : Int64) → add a b < modulus
unfolding add
add-lt a b = omega arith
