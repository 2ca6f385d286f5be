-- ===== src/Ring.antt =====
-- internal/consistenthash/consistenthash.go. A hash is a `uint32`, and so an `int` that is not negative.
pub mod Search
pub mod Successor
pub mod Owners
pub mod Nodes
pub mod Removal
use cachecore.Base.{
  ℕ, zero, suc, ◌+◌, ◌/◌, ◌%◌, Bool, true, false, not, ◌&&◌, List, [], ◌∷◌, ◌++◌, Option, none,
  some, ltb, leb, ◌==◌, if◌then◌else◌, length, get_elem?,
}
use cachecore.Go.Bytes.{Bytes}
use cachecore.Go.Hash.{crc32}
use cachecore.Go.Int64.{Int64, slt}
use cachecore.Go.IntMap.{IntMap, lookup, insert, delete}
use cachecore.Go.Strconv.{itoa}

-- The type `Map` of the source.
pub record Ring : Type 0 where
  pub hash : Bytes → ℕ
  pub replicas : Int64
  pub keys : List ℕ
  pub hash_map : IntMap Bytes

-- A `nil` hash function is CRC-32.
unfoldable pub new : Int64 → Option (Bytes → ℕ) → Ring
new n fn = record {
  hash = elim fn [ none ↦ crc32 | some h ↦ h ];
  replicas = n;
  keys = [];
  hash_map = [];
}

-- The passes of `for i := 0; i < m.replicas; i++`.
unfoldable pub passes : Int64 → ℕ
passes n = if slt 0 n then n else 0

abbrev pub replica_hash : (Bytes → ℕ) → ℕ → Bytes → ℕ
replica_hash hash i key = hash (itoa i ++ key)

-- `sort.Ints`
unfoldable pub insert_sorted : ℕ → List ℕ → List ℕ
insert_sorted a [] = a ∷ []
insert_sorted a (b ∷ s) = if leb a b then a ∷ b ∷ s else b ∷ insert_sorted a s

unfoldable pub sort : List ℕ → List ℕ
unfolding insert_sorted
sort [] = []
sort (a ∷ s) = insert_sorted a (sort s)

-- The inner loop of `Add`: `n` passes from number `i` on.
unfoldable pub add_loop : ℕ → ℕ → Bytes → Ring → Ring
add_loop zero i key m = m
add_loop (suc n) i key m =
    let hash = replica_hash m.hash i key in
    add_loop n (i + 1) key
      (record m { keys = m.keys ++ (hash ∷ []); hash_map = insert hash key m.hash_map })

unfoldable pub add_each : List Bytes → Ring → Ring
unfolding add_loop
add_each [] m = m
add_each (key ∷ keys) m = add_each keys (add_loop (passes m.replicas) 0 key m)

unfoldable pub add : List Bytes → Ring → Ring
unfolding add_each sort
add keys m = let n = add_each keys m in record n { keys = sort n.keys }

-- The loop of `sort.Search`: the answer lies between `i` and `j`, which each step brings together.
unfoldable pub search_loop : ℕ → (ℕ → Bool) → ℕ → ℕ → ℕ
search_loop zero f i j = i
search_loop (suc fuel) f i j =
    let h = (i + j) / 2 in
    let left = search_loop fuel f i h in
    let right = search_loop fuel f (h + 1) j in if ltb i j then if f h then left else right else i

-- `sort.Search(n, f)`
unfoldable pub search : ℕ → (ℕ → Bool) → ℕ
unfolding search_loop
search n f = search_loop n f 0 n

-- `m.keys[i]`
unfoldable pub key_at : List ℕ → ℕ → ℕ
key_at keys i = elim (get_elem? keys i) [ none ↦ 0 | some k ↦ k ]

-- `sort.SearchInts(m.keys, hash)`
unfoldable pub search_ints : List ℕ → ℕ → ℕ
unfolding search key_at
search_ints keys hash = search (length keys) (λ i. leb hash (key_at keys i))

-- `append(keys[:idx], keys[idx+1:]...)`
unfoldable pub remove_at : ℕ → List ℕ → List ℕ
remove_at i [] = []
remove_at zero (k ∷ keys) = keys
remove_at (suc i) (k ∷ keys) = k ∷ remove_at i keys

unfoldable pub remove_hash : ℕ → Ring → Ring
unfolding search_ints remove_at
remove_hash hash m =
    let idx = search_ints m.keys hash in
    if ltb idx (length m.keys) && (key_at m.keys idx == hash)
    then record m { keys = remove_at idx m.keys; hash_map = delete hash m.hash_map }
    else m

unfoldable pub remove_loop : ℕ → ℕ → Bytes → Ring → Ring
unfolding remove_hash
remove_loop zero i key m = m
remove_loop (suc n) i key m = remove_loop n (i + 1) key (remove_hash (replica_hash m.hash i key) m)

unfoldable pub remove : List Bytes → Ring → Ring
unfolding remove_loop
remove [] m = m
remove (key ∷ keys) m = remove keys (remove_loop (passes m.replicas) 0 key m)

-- `m.hashMap[hash]`, which is the empty string at a missing key.
unfoldable pub owner : IntMap Bytes → ℕ → Bytes
owner m hash = elim (lookup hash m) [ none ↦ [] | some key ↦ key ]

unfoldable pub get : Ring → Bytes → Bytes
unfolding search_ints owner
get m key =
    let idx = search_ints m.keys (m.hash key) in
    if length m.keys == 0 then [] else owner m.hash_map (key_at m.keys (idx % length m.keys))
