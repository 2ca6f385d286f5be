-- ===== src/Go/Strconv.antt =====
-- strconv and strings, as far as the program calls them: decimal numbers.
use cachecore.Base.{
  ℕ, zero, suc, ◌+◌, ◌-◌, ◌*◌, ◌/◌, ◌%◌, ◌<◌, ◌≡◌, ap, ◌&&◌, [], ◌∷◌, Option, none, some, ltb, leb,
  if◌then◌else◌, arith, dec_lt,
}
use cachecore.Go.Bytes.{Bytes}

-- The digits of a number in front of `acc`, the last one first; each step divides by 10.
unfoldable pub digits : ℕ → ℕ → Bytes → Bytes
digits zero n acc = acc
digits (suc fuel) n acc =
    let rest = digits fuel (n / 10) ((48 + n % 10) ∷ acc) in
    if ltb n 10 then (48 + n) ∷ acc else rest

-- `strconv.Itoa(n)` of a number that is not negative.
unfoldable pub itoa : ℕ → Bytes
unfolding digits
itoa n = digits (suc n) n []

-- The value of the digits after a prefix of value `n`; `none` at a byte that is no digit.
unfoldable pub undigits : ℕ → Bytes → Option ℕ
undigits n [] = some n
undigits n (b ∷ s) =
    let rest = undigits (n * 10 + (b - 48)) s in if leb 48 b && ltb b 58 then rest else none

last_digit : (m : ℕ) (acc : Bytes) → undigits (m / 10) ((48 + m % 10) ∷ acc) ≡ undigits m acc
unfolding undigits
last_digit m acc =
    let e : m / 10 * 10 + (48 + m % 10 - 48) ≡ m = omega arith in
    rw e ground (arith, ap (λ n. undigits n acc) e)

-- The digits of `m`, put in front of bytes that read as anything, read as `m` first.
undigits-digits :
    (fuel m : ℕ) (acc : Bytes) → m < fuel → undigits 0 (digits fuel m acc) ≡ undigits m acc
unfolding digits undigits
undigits-digits zero m acc h = elim h [ ]
undigits-digits (suc fuel) m acc h = elim (dec_lt m 10) [
  | yes p ↦ ground arith
  | no p ↦ ground (arith, undigits-digits fuel (m / 10) ((48 + m % 10) ∷ acc), last_digit m acc)
]

-- What `itoa` prints reads as the number.
pub undigits-itoa : (n : ℕ) → undigits 0 (itoa n) ≡ some n
unfolding itoa undigits
undigits-itoa n = undigits-digits (suc n) n [] (omega arith)
