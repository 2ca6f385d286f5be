-- ===== src/Store/Numeric.antt =====
-- Counters: numbers as views, and what `increment` does to a cache.
use cachecore.Base.{◌<◌, ◌≡◌, true, some, arith, length, ltb}
use cachecore.Go.Int64.{Int64, modulus}
use cachecore.Go.Numbers.{format_int}
use cachecore.Go.Numbers.Printing.{parse_trim-format_int, format_int-pos}
use cachecore.Store.{parse_numeric_value, current}
use cachecore.View.{view, is_not_found}

-- A counter is read as the number that was written: the view that `increment` stores for a word of
-- 64 bits makes the next `increment` start from it.
pub current-format_int : (n : Int64) → n < modulus → current (some (view (format_int n))) ≡ some n
unfolding current is_not_found parse_numeric_value
current-format_int n p =
    let q : ltb 0 (length (format_int n)) ≡ true = ground (arith, format_int-pos n) in
    rw q (parse_trim-format_int n p)
