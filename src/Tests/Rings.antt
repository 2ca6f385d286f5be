-- ===== src/Tests/Rings.antt =====
-- The ring of hashes at work, and the theorems about it.
use cachecore.Base.{ℕ, ◌+◌, ◌*◌, ◌≡◌, refl, ◌⊎◌, [], ◌∷◌, none, some, length, Any}
use cachecore.Go.Bytes.{Bytes}
use cachecore.Go.Int64.{slt}
use cachecore.Go.IntMap.{lookup, insert}
use cachecore.Go.Strconv.{itoa}
use cachecore.Ring.{Ring, new, passes, add_loop, add_each, insert_sorted, sort, add, remove, get}
use cachecore.Ring.Nodes.{get-added, add-IsSorted}
use cachecore.Ring.Owners.{hashes, get-add}
use cachecore.Ring.Removal.{remove-add}
use cachecore.Ring.Successor.{successor, owner_of, get-successor}
use cachecore.Tests.{a, b}

-- The hash of a string is its first byte and its length.
abbrev first_byte : Bytes → ℕ
first_byte [] = 0
first_byte (c ∷ s) = c + length s

-- Two replicas of "a".
abbrev ring : Ring
ring = add (a ∷ []) (new 2 (some first_byte))

get-successor_example : get ring b ≡ owner_of ring (successor (ring.hash b) ring.keys)
get-successor_example = get-successor ring b (add-IsSorted (a ∷ []) (new 2 (some first_byte)))

get-add_example : (get (add (b ∷ []) ring) a ≡ b) ⊎ (get (add (b ∷ []) ring) a ≡ get ring a)
get-add_example = get-add ring b a (add-IsSorted (a ∷ []) (new 2 (some first_byte)))

get-added_example : Any (λ x. x ≡ get (add (a ∷ b ∷ []) (new 50 none)) b) (a ∷ b ∷ [])
unfolding slt
get-added_example = get-added 50 none a (b ∷ []) b refl

-- The hash of a string is its number to the base 10, with its bytes for digits.
abbrev mixed : Bytes → ℕ
mixed [] = 0
mixed (c ∷ s) = c + 10 * mixed s

abbrev mixed_ring : Ring
mixed_ring = add (a ∷ []) (new 2 (some mixed))

remove-add_example :
    ((remove (b ∷ []) (add (b ∷ []) mixed_ring)).keys ≡ mixed_ring.keys)
    × (get (remove (b ∷ []) (add (b ∷ []) mixed_ring)) b ≡ get mixed_ring b)
unfolding new add add_each add_loop sort insert_sorted passes slt hashes lookup insert itoa
remove-add_example =
    remove-add mixed_ring b b (add-IsSorted (a ∷ []) (new 2 (some mixed))) (refl, (refl, tt))
