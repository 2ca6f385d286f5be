-- ===== src/Tests.antt =====
-- Data for the tests: views of a few bytes, keys of one letter, ratios in thousandths.
mod Caches
mod Segmented
mod Filters
mod Rings
mod Flights
mod Stores
mod Groups
mod Peers
mod Settings
mod Api
use cachecore.Base.{ℕ, ◌+◌, ◌*◌, ◌/◌, Bool, ◌||◌, List, [], ◌∷◌, leb, ◌==◌}
use cachecore.Go.Bytes.{Bytes, Key}
use cachecore.Slru.{Ratio}
use cachecore.View.{ByteView, view}

abbrev pub a : Key
a = b'a' ∷ []

abbrev pub b : Key
b = b'b' ∷ []

-- The values "12" and "345".
abbrev pub v12 : ByteView
v12 = view (b'1' ∷ b'2' ∷ [])

abbrev pub v345 : ByteView
v345 = view (b'3' ∷ b'4' ∷ b'5' ∷ [])

instance abbrev pub thousandths : Ratio ℕ
thousandths = record {
  scale = λ n p. n * p / 1000;
  out_of_range = λ p. (p == 0) || leb 1000 p;
  default_protected = 800;
}
