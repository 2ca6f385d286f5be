-- ===== src/Tests/Segmented.antt =====
-- The SLRU cache at work, and the theorems about it at concrete caches.
use cachecore.Base.{ℕ, ◌≤◌, ◌≡◌, refl, true, List, [], ◌∷◌, none, arith, ℕ_discrete}
use cachecore.Go.Bytes.{key_dec}
use cachecore.Go.LinkedList
use cachecore.Go.LinkedList.{total}
use cachecore.Go.Map
use cachecore.Slru.{
  Cache, new, insert, add_with_ttl, enforce_protected_limit, protected_max_bytes, seg_probation,
  raise,
}
use cachecore.Slru.Demotion.{contents, enforce_protected_limit_fits}
use cachecore.Slru.Good.{IsGood, effective, add_new_keeps_protected}
use cachecore.Slru.Invariant.{IsValid, size}
use cachecore.Slru.Limits.{Lighter, weight}
use cachecore.Slru.Methods.{new-IsValid}
use cachecore.Slru.Moves.{insert-IsValid}
use cachecore.Slru.Shifts.{raise-IsValid}
use cachecore.Slru.Runs.{
  Call, gets, adds, removes, removes_oldest, removes_expired, run, run_slru-IsGood,
}
use cachecore.Tests.{a, b, v12, v345, thousandths}
use cachecore.View.{ByteView, view_Value, len}

-- "a" is protected, "b" is on probation, and both are over the limit of 4.
abbrev one : Cache ℕ ByteView
one =
    insert (new 4 500 true) (record { key = a; value = v12; expire_at = none; seg = seg_probation })

abbrev raised : Cache ℕ ByteView
raised = raise one 0 (record { key = a; value = v12; expire_at = none; seg = seg_probation })

abbrev two : Cache ℕ ByteView
two = insert raised (record { key = b; value = v345; expire_at = none; seg = seg_probation })

one-IsValid : IsValid one
unfolding new Map.lookup
one-IsValid = insert-IsValid _ (new-IsValid 4 500 true) _ refl refl

raised-IsValid : IsValid raised
unfolding insert new LinkedList.value_of ℕ_discrete
raised-IsValid = raise-IsValid one one-IsValid 0 _ refl

two-IsValid : IsValid two
unfolding insert new raise Map.lookup Map.insert key_dec
two-IsValid = insert-IsValid raised raised-IsValid _ refl refl

two-limit : two.max_bytes ≡ 4
unfolding insert new raise
two-limit = refl

two-ratio : two.protected_ratio ≡ 500
unfolding insert new raise
two-ratio = refl

two-weight : weight two ≡ 7
unfolding insert new raise total LinkedList.remove ℕ_discrete view_Value len
two-weight = refl

two-protected : total size two.protected ≡ 3
unfolding insert new raise total LinkedList.remove ℕ_discrete view_Value len
two-protected = refl

enforce_protected_limit_fits_example :
    Lighter two (enforce_protected_limit two)
    × (weight (enforce_protected_limit two) ≡ weight two)
    × (total size (enforce_protected_limit two).protected ≤ protected_max_bytes two)
    × IsValid (enforce_protected_limit two)
    × (contents (enforce_protected_limit two) ≡ contents two)
enforce_protected_limit_fits_example =
    enforce_protected_limit_fits two two-IsValid (omega (arith, two-limit))
      (omega (arith, two-limit)) (rw (two-limit, two-ratio) (omega arith))
      (omega (arith, two-weight))

-- A scan of a new key leaves "a" protected, although "b" makes room.
add_new_keeps_protected_example : (add_with_ttl two (b'c' ∷ []) v345 0 9).protected ≡ two.protected
unfolding insert new raise Map.lookup Map.insert key_dec view_Value len
add_new_keeps_protected_example =
    add_new_keeps_protected two (b'c' ∷ []) v345 0 9 two-IsValid refl (omega (arith, two-limit))
      (omega (arith, two-weight)) (omega (arith, two-protected, two-limit))

abbrev history : List (Call ByteView)
history =
    adds a v12 10 5
    ∷ gets a 6
    ∷ adds b v345 0 7
    ∷ gets b 8
    ∷ removes_expired 30
    ∷ removes_oldest
    ∷ removes b
    ∷ []

run_slru-IsGood_example : IsGood {F = ℕ} 8 (effective 500) (run (new 8 500 true) history)
unfolding view_Value len
run_slru-IsGood_example =
    run_slru-IsGood 8 500 true history
      (record { positive = omega arith; small = omega arith; word = omega arith })
      (omega arith, (tt, (omega arith, (tt, (tt, (tt, (tt, tt)))))))
