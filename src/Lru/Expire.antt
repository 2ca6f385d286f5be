-- ===== src/Lru/Expire.antt =====
-- What `RemoveExpired` of the LRU cache takes away.
use mathlib.Core.List.{reverse-cons}
use cachecore.Base.{
  ℕ, suc, ◌≤◌, ◌≡◌, refl, ◌∙◌, ◌⊎◌, inl, inr, false, List, [], ◌∷◌, ◌++◌, none, some, reverse,
  arith, All, All-map, All-reverse,
}
use cachecore.Expiry.{Value, passed, passed_mono}
use cachecore.Go.Bytes.{Key}
use cachecore.Go.LinkedList.{Element, find, find-key, find-All}
use cachecore.Lru.{Entry, Cache, entry_key, remove, visit, sweep, remove_expired}
use cachecore.Lru.Invariant.{IsValid}
use cachecore.Lru.Methods.{visit-IsValid}
use cachecore.Lru.Reads.{answer, peek, find-remove_key}

module _ {V : Type 0} ⦃v : Value V⦄ where
  -- An element that the loop still has to visit is in the cache, or its key is not.
  abbrev Agrees : Cache V → Element (Entry V) → Type 0
  Agrees c e =
      (find entry_key e.value.key c.ll ≡ some e.value) ⊎ (find entry_key e.value.key c.ll ≡ none)

  Agrees-remove :
      (c : Cache V) (key : Key) (l : List (Element (Entry V)))
      → IsValid c
      → All (Agrees c) l
      → All (Agrees (remove c key)) l
  Agrees-remove c key l h =
      All-map (Agrees c) (Agrees (remove c key))
        (λ e a. ground (arith, find-remove_key c key e.value.key h)) l

  Agrees-IsValid : (c : Cache V) → IsValid c → All (Agrees c) (reverse c.ll)
  Agrees-IsValid c h = All-reverse (Agrees c) c.ll (
      All-map (λ e. find entry_key e.value.key c.ll ≡ some e.value) (Agrees c) (λ e p. inl p) c.ll
        (find-All entry_key c.ll h.distinct))

  visit-Agrees :
      (c : Cache V) (e : Element (Entry V)) (now : ℕ) (l : List (Element (Entry V)))
      → IsValid c
      → All (Agrees c) l
      → All (Agrees (visit c e now)) l
  unfolding visit
  visit-Agrees c e now l h a = ground (arith, Agrees-remove c e.value.key l h a)

  visit-peek :
      (c : Cache V) (e : Element (Entry V)) (now later : ℕ) (j : Key)
      → IsValid c
      → Agrees c e
      → now ≤ later
      → peek (visit c e now) j later ≡ peek c j later
  unfolding visit answer
  visit-peek c e now later j h a le =
      ground (arith, find-remove_key c e.value.key j h, passed_mono e.value.expire_at now later le)

  sweep-peek :
      (clock : ℕ → ℕ) (later : ℕ)
      → ((n : ℕ) → clock n ≤ later)
      → (j : Key) (n : ℕ) (l : List (Element (Entry V))) (c : Cache V) → IsValid c
      → All (Agrees c) l
      → peek (sweep clock n l c) j later ≡ peek c j later
  unfolding sweep visit
  sweep-peek clock later le j n [] c h a = refl
  sweep-peek clock later le j n (e ∷ l) c h a =
      sweep-peek clock later le j (suc n) l (visit c e (clock n)) (visit-IsValid c e (clock n) h)
        (visit-Agrees c e (clock n) l h a.1)
      ∙ visit-peek c e (clock n) later j h a.0 (le n)

  sweep-find :
      (clock : ℕ → ℕ) (j : Key) (kv : Entry V) (n : ℕ) (l : List (Element (Entry V))) (c : Cache V)
      → IsValid c
      → find entry_key j (sweep clock n l c).ll ≡ some kv
      → find entry_key j c.ll ≡ some kv
  unfolding sweep visit
  sweep-find clock j kv n [] c h p = p
  sweep-find clock j kv n (e ∷ l) c h p = ground (
    arith,
    sweep-find clock j kv (suc n) l (visit c e (clock n)) (visit-IsValid c e (clock n) h) p,
    find-remove_key c e.value.key j h,
  )

  -- The value is that of an element of the list.
  abbrev In : Entry V → List (Element (Entry V)) → Type 0
  In kv [] = ⊥
  In kv (e ∷ l) = (e.value ≡ kv) ⊎ In kv l

  In-append_left : (kv : Entry V) (l m : List (Element (Entry V))) → In kv l → In kv (l ++ m)
  In-append_left kv (e ∷ l) m (inl p) = inl p
  In-append_left kv (e ∷ l) m (inr p) = inr (In-append_left kv l m p)
  In-append_left kv [] m p = absurd p

  In-append_right : (kv : Entry V) (l m : List (Element (Entry V))) → In kv m → In kv (l ++ m)
  In-append_right kv [] m p = p
  In-append_right kv (e ∷ l) m p = inr (In-append_right kv l m p)

  In-reverse : (kv : Entry V) (l : List (Element (Entry V))) → In kv l → In kv (reverse l)
  In-reverse kv [] p = p
  In-reverse kv (e ∷ l) (inl p) =
      rw (reverse-cons e l) (In-append_right kv (reverse l) (e ∷ []) (inl p))
  In-reverse kv (e ∷ l) (inr p) =
      rw (reverse-cons e l) (In-append_left kv (reverse l) (e ∷ []) (In-reverse kv l p))

  In-find :
      (j : Key) (kv : Entry V) (l : List (Element (Entry V)))
      → find entry_key j l ≡ some kv
      → In kv l
  unfolding find
  In-find j kv [] p = cc
  In-find j kv (e ∷ l) p = ground (arith, In-find j kv l)

  -- An element that the loop has passed and left was live.
  sweep-live :
      (clock : ℕ → ℕ) (start : ℕ)
      → ((n : ℕ) → start ≤ clock n)
      → (j : Key) (kv : Entry V) (n : ℕ) (l : List (Element (Entry V))) (c : Cache V) → IsValid c
      → In kv l
      → find entry_key j (sweep clock n l c).ll ≡ some kv
      → passed kv.expire_at start ≡ false
  unfolding sweep visit
  sweep-live clock start le j kv n [] c h m p = absurd m
  sweep-live clock start le j kv n (e ∷ l) c h (inr m) p =
      sweep-live clock start le j kv (suc n) l (visit c e (clock n)) (visit-IsValid c e (clock n) h)
        m p
  sweep-live clock start le j kv n (e ∷ l) c h (inl m) p = ground (
    arith,
    sweep-find clock j kv (suc n) l (visit c e (clock n)) (visit-IsValid c e (clock n) h) p,
    find-remove_key c e.value.key j h,
    find-key entry_key j c.ll {a = kv},
    passed_mono kv.expire_at start (clock n) (le n),
  )

  -- In a valid cache `RemoveExpired` removes what had expired at a time before its readings of the
  -- clock, and changes nothing that a `Get` can see at a time after them.
  pub remove_expired_reads :
      (c : Cache V) (clock : ℕ → ℕ) (start later : ℕ) (j : Key)
      → IsValid c
      → ((n : ℕ) → start ≤ clock n)
      → ((n : ℕ) → clock n ≤ later)
      → ((kv : Entry V)
          → find entry_key j (remove_expired c clock).ll ≡ some kv
          → passed kv.expire_at start ≡ false)
        × (peek (remove_expired c clock) j later ≡ peek c j later)
  unfolding remove_expired
  remove_expired_reads c clock start later j h le ge = (
    λ kv p.
        sweep-live clock start le j kv 0 (reverse c.ll) c h
          (In-reverse kv c.ll (In-find j kv c.ll (sweep-find clock j kv 0 (reverse c.ll) c h p))) p,
    sweep-peek clock later ge j 0 (reverse c.ll) c h (Agrees-IsValid c h),
  )
