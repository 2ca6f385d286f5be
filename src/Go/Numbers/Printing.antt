-- ===== src/Go/Numbers/Printing.antt =====
-- strconv.FormatInt, and strings.TrimSpace and strconv.ParseInt on what it prints.
use cachecore.Base.{
  ℕ, zero, suc, ◌+◌, ◌-◌, ◌/◌, ◌%◌, ◌≤◌, ◌<◌, ◌≡◌, refl, ap, ◌∙◌, inl, inr, true, false, [], ◌∷◌,
  reverse, none, some, ltb, leb, length, arith, All, All-map, All-reverse, Bool-cases, dec_lt, ◌^◌,
  reverse-reverse,
}
use cachecore.Go.Bytes.{Bytes}
use cachecore.Go.Int64.{Int64, modulus, half, neg}
use cachecore.Go.Strconv.{digits, itoa, undigits, undigits-itoa}
use cachecore.Go.Numbers.{
  format_int, parse_digits, parse_negative, parse_positive, parse_int, is_space, is_space2,
  is_space3, skip_front, skip_back, trim, trim_space,
}

abbrev IsDigit : ℕ → Type 0
IsDigit b = (48 ≤ b) × (b < 58)

digits-All : (fuel n : ℕ) (acc : Bytes) → All IsDigit acc → All IsDigit (digits fuel n acc)
unfolding digits
digits-All zero n acc a = a
digits-All (suc fuel) n acc a = elim (dec_lt n 10) [
  | yes p ↦ let e : ltb n 10 ≡ true = ground arith in rw e ((omega arith, omega arith), a)
  | no p ↦
      let e : ltb n 10 ≡ false = ground arith in
      rw e (digits-All fuel (n / 10) ((48 + n % 10) ∷ acc) ((omega arith, omega arith), a))
]

length-digits : (fuel n : ℕ) (acc : Bytes) → length acc ≤ length (digits fuel n acc)
unfolding digits
length-digits zero n acc = omega arith
length-digits (suc fuel) n acc = ground (arith, length-digits fuel (n / 10) ((48 + n % 10) ∷ acc))

length-itoa : (n : ℕ) → 0 < length (itoa n)
unfolding itoa digits
length-itoa n = ground (arith, length-digits n (n / 10) ((48 + n % 10) ∷ []))

-- No space begins or ends with a byte below 128 that is not an ASCII space.
skip_front-none : (b : ℕ) (s : Bytes) → 33 ≤ b → b < 128 → skip_front (b ∷ s) ≡ none
unfolding skip_front is_space is_space2 is_space3
skip_front-none b [] p q = ground arith
skip_front-none b (c ∷ []) p q = ground arith
skip_front-none b (c ∷ d ∷ s) p q = ground arith

skip_back-none : (b : ℕ) (s : Bytes) → 33 ≤ b → b < 128 → skip_back (b ∷ s) ≡ none
unfolding skip_back is_space is_space2 is_space3
skip_back-none b [] p q = ground arith
skip_back-none b (c ∷ []) p q = ground arith
skip_back-none b (c ∷ d ∷ s) p q = ground arith

-- A graphic ASCII character.
abbrev IsGraphic : ℕ → Type 0
IsGraphic b = (33 ≤ b) × (b < 128)

trim_front-none : (n : ℕ) (s : Bytes) → All IsGraphic s → trim n skip_front s ≡ s
unfolding trim skip_front
trim_front-none zero s a = refl
trim_front-none (suc n) [] a = refl
trim_front-none (suc n) (b ∷ s) a = rw (trim, skip_front-none b s a.0.0 a.0.1) refl

trim_back-none : (n : ℕ) (s : Bytes) → All IsGraphic s → trim n skip_back s ≡ s
unfolding trim skip_back
trim_back-none zero s a = refl
trim_back-none (suc n) [] a = refl
trim_back-none (suc n) (b ∷ s) a = rw (trim, skip_back-none b s a.0.0 a.0.1) refl

trim_space-graphic : (s : Bytes) → All IsGraphic s → trim_space s ≡ s
unfolding trim_space
trim_space-graphic s a = rw (trim_front-none (length s) s a) (
    ap reverse (trim_back-none (length s) (reverse s) (All-reverse IsGraphic s a))
    ∙ reverse-reverse s)

itoa-All : (n : ℕ) → All IsDigit (itoa n)
unfolding itoa
itoa-All n = digits-All (suc n) n [] tt

graphic : (s : Bytes) → All IsDigit s → All IsGraphic s
graphic s a = All-map IsDigit IsGraphic (λ b p. (omega arith, omega arith)) s a

format_int-IsGraphic : (w : Int64) → All IsGraphic (format_int w)
unfolding format_int
format_int-IsGraphic w = elim (Bool-cases (ltb w half)) [
  | inl e ↦ rw e (graphic (itoa w) (itoa-All w))
  | inr e ↦ rw e ((omega arith, omega arith), graphic (itoa (modulus - w)) (itoa-All (modulus - w)))
]

parse_digits-undigits : (s : Bytes) → 0 < length s → parse_digits s ≡ undigits 0 s
unfolding parse_digits
parse_digits-undigits [] p = absurd (omega arith)
parse_digits-undigits (b ∷ s) p = refl

parse_digits-itoa : (n : ℕ) → parse_digits (itoa n) ≡ some n
parse_digits-itoa n = parse_digits-undigits (itoa n) (length-itoa n) ∙ undigits-itoa n

parse_int-digits : (s : Bytes) → All IsDigit s → 0 < length s → parse_int s ≡ parse_positive s
unfolding parse_int
parse_int-digits [] a p = absurd (omega arith)
parse_int-digits (b ∷ s) a p = ground (arith, a.0)

parse_positive-itoa : (n : ℕ) → n < half → parse_positive (itoa n) ≡ some n
unfolding parse_positive
parse_positive-itoa n p =
    let e : ltb n half ≡ true = ground arith in rw (parse_positive, parse_digits-itoa n, e) refl

parse_negative-itoa : (n : ℕ) → n ≤ half → parse_negative (itoa n) ≡ some (neg n)
unfolding parse_negative
parse_negative-itoa n p =
    let e : leb n half ≡ true = ground arith in rw (parse_negative, parse_digits-itoa n, e) refl

neg_back : (w : Int64) → half ≤ w → w < modulus → neg (modulus - w) ≡ w
unfolding neg
neg_back w p q = omega arith

parse_int-format_int : (w : Int64) → w < modulus → parse_int (format_int w) ≡ some w
unfolding format_int parse_int
parse_int-format_int w p = elim (Bool-cases (ltb w half)) [
  | inl e ↦ rw e (
      parse_int-digits (itoa w) (itoa-All w) (length-itoa w) ∙ parse_positive-itoa w (ground arith))
  | inr e ↦
      let q : half ≤ w = ground arith in
      rw e (parse_negative-itoa (modulus - w) (omega arith) ∙ ap some (neg_back w q p))
]

-- What `FormatInt` prints of an `int64` is, with its spaces trimmed, read as that number.
pub parse_trim-format_int :
    (w : Int64) → w < modulus → parse_int (trim_space (format_int w)) ≡ some w
parse_trim-format_int w p =
    ap parse_int (trim_space-graphic (format_int w) (format_int-IsGraphic w))
    ∙ parse_int-format_int w p

length-digits-le :
    (k fuel n : ℕ) (acc : Bytes) → n < 10 ^ suc k → length (digits fuel n acc) ≤ suc k + length acc
unfolding digits
length-digits-le k zero n acc p = omega arith
length-digits-le zero (suc fuel) n acc p = ground arith
length-digits-le (suc k) (suc fuel) n acc p =
    ground (arith, length-digits-le k fuel (n / 10) ((48 + n % 10) ∷ acc) (omega arith))

length-itoa-le : (n : ℕ) → n < modulus → length (itoa n) ≤ 20
unfolding itoa
length-itoa-le n p = omega (arith, length-digits-le 19 (suc n) n [] (omega arith))

-- An `int64` prints in at most 20 characters.
pub length-format_int : (w : Int64) → w < modulus → length (format_int w) ≤ 20
unfolding format_int itoa
length-format_int w p = elim (Bool-cases (ltb w half)) [
  | inl e ↦ rw e (length-itoa-le w p)
  | inr e ↦
      let q : half ≤ w = ground arith in
      rw e (omega (arith, length-digits-le 18 (suc (modulus - w)) (modulus - w) [] (omega arith)))
]

pub format_int-pos : (w : Int64) → 0 < length (format_int w)
unfolding format_int
format_int-pos w = ground (arith, length-itoa w)
