-- ===== src/Tests/Caches.antt =====
-- The LRU cache at work, and the theorems about it at concrete caches.
use cachecore.Base.{
  ◌-◌, ◌==◌, ◌≡◌, refl, inr, true, false, List, [], ◌∷◌, none, some, arith, length,
}
use cachecore.Expiry.{passed}
use cachecore.Go.Bytes.{key_dec}
use cachecore.Go.Int64.{Int64, half, modulus, of_nat, slt}
use cachecore.Go.Int64
use cachecore.Go.LinkedList.{total, find}
use cachecore.Go.LinkedList
use cachecore.Go.Map
use cachecore.Lru.{
  Entry, Cache, entry_key, new, store, insert, update, get, remove, remove_expired, add_with_ttl,
  shrink,
}
use cachecore.Lru
use cachecore.Lru.Add.{Added, stored, add_with_ttl-Added, add_endless}
use cachecore.Lru.Expire.{remove_expired_reads}
use cachecore.Lru.Invariant.{IsValid, size}
use cachecore.Lru.Methods.{new-IsValid, store-IsValid}
use cachecore.Lru.Reads.{peek, get-peek}
use cachecore.Lru.Runs.{
  Call, gets, adds, removes, removes_oldest, removes_expired, run, IsGood, run-new-IsGood,
}
use cachecore.Lru.Shrink.{Shrunk, shrink-Shrunk}
use cachecore.Tests.{a, b, v12, v345}
use cachecore.View.{ByteView, view_Value, len}

-- "a" holds "12" for 10 ns from the instant 5 on, "b" holds "345" for good.
abbrev two : Cache ByteView
two = store (store (new 6 true) a v12 10 5) b v345 0 6

two-IsValid : IsValid two
two-IsValid = store-IsValid _ b v345 0 6 (store-IsValid _ a v12 10 5 (new-IsValid 6 true))

two-size : total size two.ll ≡ 7
unfolding store insert update new Map.lookup Map.insert total view_Value len key_dec
two-size = refl

two-limit : two.max_bytes ≡ 6
unfolding store insert update new Map.lookup Map.insert key_dec
two-limit = refl

two-length : length two.ll ≡ 2
unfolding store insert update new Map.lookup Map.insert key_dec
two-length = refl

-- The 7 bytes of `two` are over the limit, but with "12" for "345" both entries fit.
update_fits :
    (elim (add_with_ttl two b v12 0 7) [ none ↦ false | some c ↦ length c.ll == 2 ]) ≡ true
unfolding store insert update new Map.lookup Map.insert key_dec add_with_ttl shrink Lru.is_over
    view_Value len slt Int64.add Int64.sub of_nat Lru.cost LinkedList.value_of LinkedList.set_value
    LinkedList.move_to_front LinkedList.remove
update_fits = refl

get-peek_example : (get two a 7).1 ≡ peek two a 7
get-peek_example = get-peek two a 7 two-IsValid

shrink-Shrunk_example : Shrunk two (shrink 3 two)
shrink-Shrunk_example =
    shrink-Shrunk 3 two two-IsValid (omega (arith, two-limit)) (omega (arith, two-size))
      (omega (arith, two-length))

add_with_ttl-Added_example : Added two (stored a v345 0 8) (add_with_ttl two a v345 0 8)
unfolding view_Value len
add_with_ttl-Added_example =
    add_with_ttl-Added two a v345 0 8 two-IsValid (omega (arith, two-limit))
      (omega (arith, two-size)) (inr (omega (arith, two-limit)))

-- The zero limit is none, and a limit of -1 is a word from 2 ^ 63 on.
add_endless_example : shrink 1000 (store (new (modulus - 1) true) a v12 0 5) ≡ none
unfolding new total view_Value len
add_endless_example =
    add_endless (new (modulus - 1) true) a v12 0 5 1000 (new-IsValid (modulus - 1) true)
      (omega arith) (omega arith) (omega arith)

remove_expired_reads_example :
    ((kv : Entry ByteView)
      → find entry_key a (remove_expired two (λ n. 20)).ll ≡ some kv
      → passed kv.expire_at 20 ≡ false)
    × (peek (remove_expired two (λ n. 20)) a 20 ≡ peek two a 20)
remove_expired_reads_example =
    remove_expired_reads two (λ n. 20) 20 20 a two-IsValid (λ n. omega arith) (λ n. omega arith)

abbrev history : List (Call ByteView)
history =
    adds a v12 10 5
    ∷ adds b v345 0 6
    ∷ gets a 7
    ∷ removes_expired (λ n. 30)
    ∷ adds a v345 0 31
    ∷ removes_oldest
    ∷ removes b
    ∷ []

run-new-IsGood_example : (c : Cache ByteView) × (run (new 6 true) history ≡ some c) × IsGood 6 c
unfolding view_Value len
run-new-IsGood_example =
    run-new-IsGood 6 true history (omega arith)
      (omega arith, (omega arith, (tt, (tt, (omega arith, (tt, (tt, tt)))))))
