-- ===== src/Go/Numbers.antt =====
-- strconv.FormatInt, strconv.ParseInt and strings.TrimSpace, as the program calls them: base 10,
-- 64 bits. White space beyond ASCII is matched by its UTF-8 bytes.
pub mod Printing
use cachecore.Base.{
  ℕ, zero, suc, ◌+◌, ◌-◌, ◌/◌, ◌%◌, ◌≤◌, ◌<◌, ◌≡◌, ◌≢◌, refl, ap, ◌∙◌, sym, subst, ◌⊎◌, inl, inr,
  Bool, true, false, ◌&&◌, ◌||◌, List, [], ◌∷◌, ◌++◌, reverse, Option, none, some, ltb, leb, ◌==◌,
  if◌then◌else◌, length, arith, All, All-map, All-reverse, Bool-cases, dec_lt, ◌>>=◌,
}
use cachecore.Go.Bytes.{Bytes}
use cachecore.Go.Int64.{Int64, modulus, half, neg}
use cachecore.Go.Strconv.{digits, itoa, undigits, undigits-itoa}

-- `strconv.FormatInt(n, 10)`
unfoldable pub format_int : Int64 → Bytes
format_int n = if ltb n half then itoa n else b'-' ∷ itoa (modulus - n)

-- Digits, at least one.
unfoldable pub parse_digits : Bytes → Option ℕ
parse_digits [] = none
parse_digits (b ∷ s) = undigits 0 (b ∷ s)

unfoldable pub parse_negative : Bytes → Option Int64
parse_negative s = do n ← parse_digits s; if leb n half then some (neg n) else none

unfoldable pub parse_positive : Bytes → Option Int64
parse_positive s = do n ← parse_digits s; if ltb n half then some n else none

-- `strconv.ParseInt(s, 10, 64)`, `none` for its errors.
unfoldable pub parse_int : Bytes → Option Int64
parse_int [] = none
parse_int (b ∷ s) =
    if b == b'-'
    then parse_negative s
    else (if b == b'+' then parse_positive s else parse_positive (b ∷ s))

unfoldable pub is_space : ℕ → Bool
is_space b = (leb 9 b && leb b 13) || (b == 32)

-- U+0085 and U+00A0, and U+1680, U+2000 to U+200A, U+2028, U+2029, U+202F, U+205F and U+3000.
unfoldable pub is_space2 : ℕ → ℕ → Bool
is_space2 a b = (a == 0xc2) && ((b == 0x85) || (b == 0xa0))

unfoldable pub is_space3 : ℕ → ℕ → ℕ → Bool
is_space3 a b c =
    ((a == 0xe1) && (b == 0x9a) && (c == 0x80))
    || ((a == 0xe2)
        && (b == 0x80)
        && ((leb 0x80 c && leb c 0x8a) || (c == 0xa8) || (c == 0xa9) || (c == 0xaf)))
    || ((a == 0xe2) && (b == 0x81) && (c == 0x9f))
    || ((a == 0xe3) && (b == 0x80) && (c == 0x80))

-- A space at the front of the bytes is left out; `none` when there is none.
unfoldable pub skip_front : Bytes → Option Bytes
skip_front [] = none
skip_front (a ∷ []) = if is_space a then some [] else none
skip_front (a ∷ b ∷ []) =
    if is_space a then some (b ∷ []) else (if is_space2 a b then some [] else none)
skip_front (a ∷ b ∷ c ∷ s) =
    if is_space a
    then some (b ∷ c ∷ s)
    else (if is_space2 a b then some (c ∷ s) else (if is_space3 a b c then some s else none))

-- The same at the end of the bytes, which are given in reverse.
unfoldable pub skip_back : Bytes → Option Bytes
skip_back [] = none
skip_back (a ∷ []) = if is_space a then some [] else none
skip_back (b ∷ a ∷ []) =
    if is_space b then some (a ∷ []) else (if is_space2 a b then some [] else none)
skip_back (c ∷ b ∷ a ∷ s) =
    if is_space c
    then some (b ∷ a ∷ s)
    else (if is_space2 b c then some (a ∷ s) else (if is_space3 a b c then some s else none))

-- A step for each byte is enough, since each takes one away.
unfoldable pub trim : ℕ → (Bytes → Option Bytes) → Bytes → Bytes
trim zero skip s = s
trim (suc n) skip s = elim (skip s) [ none ↦ s | some t ↦ trim n skip t ]

-- `strings.TrimSpace`
unfoldable pub trim_space : Bytes → Bytes
trim_space s =
    let t = trim (length s) skip_front s in reverse (trim (length t) skip_back (reverse t))
