-- ===== src/Bloom.antt =====
-- bloomfilter/bloomfilter.go. The lock makes each method one step; a bit is a 32-bit word, 0 or 1.
pub mod Membership
pub mod Exact
use cachecore.Base.{
  ℕ, zero, suc, ◌+◌, ◌*◌, ◌%◌, Bool, true, false, List, [], ◌∷◌, map, Option, none, some, ◌==◌,
  if◌then◌else◌, length, get_elem?, set, replicate,
}
use cachecore.Go.Bytes.{Bytes}
use cachecore.Go.Hash.{modulus32, fnv32a, crc32}
use cachecore.Go.Int64.{Int64, slt}

pub record BloomFilter : Type 0 where
  pub arr : List ℕ
  pub k : ℕ

abbrev pub default_bitset_size : ℕ
default_bitset_size = 1000

abbrev pub default_hash_count : ℕ
default_hash_count = 6

-- `m` and `k` are `int`s: 64-bit words, and those that are not positive are replaced.
unfoldable pub new : Int64 → Int64 → BloomFilter
new m k = record {
  arr = replicate (if slt 0 m then m else default_bitset_size) 0;
  k = (if slt 0 k then k else default_hash_count) % modulus32;
}

unfoldable pub new_default : BloomFilter
unfolding new
new_default = new default_bitset_size default_hash_count

-- The loop of `indexes`: `n` hashes from number `i` on, in 32-bit arithmetic.
unfoldable pub index_loop : ℕ → ℕ → ℕ → ℕ → ℕ → List ℕ
index_loop zero i h1 h2 m = []
index_loop (suc n) i h1 h2 m = (h1 + i * h2) % modulus32 % m ∷ index_loop n (i + 1) h1 h2 m

unfoldable pub indexes : BloomFilter → Bytes → List ℕ
unfolding index_loop
indexes bf item =
    let h2 = crc32 item in
    index_loop bf.k 0 (fnv32a item) (if h2 == 0 then 1 else h2) (length bf.arr % modulus32)

unfoldable pub set_loop : List ℕ → List ℕ → List ℕ
set_loop [] arr = arr
set_loop (idx ∷ is) arr = set_loop is (set arr idx 1)

unfoldable pub add : BloomFilter → Bytes → BloomFilter
add bf item =
    if length bf.arr == 0 then bf else record bf { arr = set_loop (indexes bf item) bf.arr }

-- `bf.arr[idx]`
abbrev pub bit : List ℕ → ℕ → ℕ
bit arr idx = elim (get_elem? arr idx) [ none ↦ 0 | some b ↦ b ]

unfoldable pub test_loop : List ℕ → List ℕ → Bool
test_loop [] arr = true
test_loop (idx ∷ is) arr = let rest = test_loop is arr in if bit arr idx == 0 then false else rest

unfoldable pub contains : BloomFilter → Bytes → Bool
contains bf item = if length bf.arr == 0 then false else test_loop (indexes bf item) bf.arr

unfoldable pub reset : BloomFilter → BloomFilter
reset bf = record bf { arr = map (λ b. 0) bf.arr }
