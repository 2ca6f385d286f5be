-- ===== src/Go/Bytes.antt =====
-- Strings and byte slices: lists of bytes. The keys of the caches are strings.
use Prim.Native.Char.{code}
use Prim.Native.String.{String}
use cachecore.Base.{
  ℕ, Bool, true, false, ◌&&◌, ◌||◌, List, [], ◌∷◌, ◌==◌, ite, ℕ_discrete, ◌≡◌, ◌≢◌, if_pos, if_neg,
}

abbrev pub Bytes : Type 0
Bytes = List ℕ

abbrev pub Key : Type 0
Key = Bytes

unfoldable pub key_dec : Discrete Key
unfolding ℕ_discrete
key_dec = hlevel ℕ_discrete

-- The bytes of a string literal, which is ASCII.
abbrev pub codes : String → Bytes
codes String.[] = []
codes (String.◌∷◌ c s) = code c ∷ codes s

-- `a == b` of strings.
unfoldable pub equal : Bytes → Bytes → Bool
equal a b = ite (key_dec a b) true false

-- `strings.HasPrefix(s, prefix)`
unfoldable pub has_prefix : Bytes → Bytes → Bool
has_prefix s [] = true
has_prefix [] (p ∷ prefix) = false
has_prefix (b ∷ s) (p ∷ prefix) = (b == p) && has_prefix s prefix

-- `strings.Contains(s, substr)`
unfoldable pub contains : Bytes → Bytes → Bool
unfolding has_prefix
contains [] substr = has_prefix [] substr
contains (b ∷ s) substr = has_prefix (b ∷ s) substr || contains s substr

pub equal-yes : (x y : Key) → x ≡ y → equal x y ≡ true
unfolding equal
equal-yes x y e = if_pos (key_dec x y) e true false

pub equal-no : (x y : Key) → x ≢ y → equal x y ≡ false
unfolding equal
equal-no x y p = if_neg (key_dec x y) p true false
