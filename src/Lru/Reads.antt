-- ===== src/Lru/Reads.antt =====
-- What a later `Get` can read after a call of the LRU cache.
use cachecore.Base.{
  ℕ, ◌≤◌, ◌≡◌, sym, ◌∙◌, ite, ◌⊎◌, inl, inr, Option, none, some, arith, Option-cases, Bool-cases,
  if◌then◌else◌,
}
use cachecore.Expiry.{Value, passed, passed_mono}
use cachecore.Go.Bytes.{Key, key_dec}
use cachecore.Go.LinkedList.{
  value_of, find, find-id_of-none, find-value_of, find-remove, move_to_front-push_front,
}
use cachecore.Go.Map
use cachecore.Lru.{Entry, Cache, entry_key, discard, remove, touch, get}
use cachecore.Lru.Invariant.{IsValid, found, touch-move_to_front}

module _ {V : Type 0} ⦃v : Value V⦄ where
  -- What a key leads to in a valid cache, through the map and in the list.
  abbrev pub Located : Cache V → Key → Type 0
  Located c key =
      ((Map.lookup key c.cache ≡ none) × (find entry_key key c.ll ≡ none))
      ⊎ ((i : ℕ) × (e : Entry V) × (Map.lookup key c.cache ≡ some i)
          × (value_of i c.ll ≡ some e)
          × (e.key ≡ key)
          × (find entry_key key c.ll ≡ some e))

  pub locate : (c : Cache V) (key : Key) → IsValid c → Located c key
  locate c key h = elim (Option-cases (Map.lookup key c.cache)) [
    | inl miss ↦ inl (miss, find-id_of-none entry_key key c.ll (sym (h.index key) ∙ miss))
    | inr (i, hit) ↦
        let (e, p, q) = found h key i hit in
        inr (i, e, hit, p, q, rw (← q) (find-value_of entry_key c.ll i e h.distinct p))
  ]

  -- What a `Get` of the key at a time would answer, by the list alone.
  unfoldable pub answer : Option (Entry V) → ℕ → Option V
  answer none now = none
  answer (some e) now = if passed e.expire_at now then none else some e.value

  abbrev pub peek : Cache V → Key → ℕ → Option V
  peek c key now = answer (find entry_key key c.ll) now

  pub find-remove_key :
      (c : Cache V) (key j : Key)
      → IsValid c
      → find entry_key j (remove c key).ll ≡ ite (key_dec key j) none (find entry_key j c.ll)
  unfolding remove discard
  find-remove_key c key j h = elim (locate c key h) [
    | inl (miss, absent) ↦ rw (miss, remove) (ground arith)
    | inr (i, e, hit, p, q, _) ↦
        rw (hit, remove, p) (ground (arith, find-remove entry_key c.ll i e j h.distinct p))
  ]

  find-touch :
      (c : Cache V) (i : ℕ) (e : Entry V) (j : Key)
      → IsValid c
      → value_of i c.ll ≡ some e
      → find entry_key j (touch c i).ll ≡ find entry_key j c.ll
  unfolding find
  find-touch c i e j h p =
      rw (touch-move_to_front, move_to_front-push_front i e c.ll p)
        (ground (
          arith,
          find-remove entry_key c.ll i e j h.distinct p,
          find-value_of entry_key c.ll i e h.distinct p,
        ))

  -- `Get` of a valid cache answers with the value of the entry that the key has in the list,
  -- unless there is none or its time has passed.
  pub get-peek :
      (c : Cache V) (key : Key) (now : ℕ) → IsValid c → (get c key now).1 ≡ peek c key now
  unfolding get answer
  get-peek c key now h = elim (locate c key h) [
    | inl (miss, absent) ↦ rw (absent, get, miss)
    | inr (i, e, hit, p, q, present) ↦ rw (present, get, hit, p) (ground arith)
  ]

  -- A `Get` of a valid cache changes nothing that a `Get` can read at its time or later.
  pub peek-get :
      (c : Cache V) (key j : Key) (now later : ℕ)
      → IsValid c
      → now ≤ later
      → peek (get c key now).0 j later ≡ peek c j later
  unfolding get answer
  peek-get c key j now later h le = elim (locate c key h) [
    | inl (miss, absent) ↦ rw (get, miss)
    | inr (i, e, hit, p, q, present) ↦ elim (Bool-cases (passed e.expire_at now)) [
      | inr live ↦ rw (get, hit, p, live, find-touch c i e j h p)
      | inl old ↦
          rw (get, hit, p, old, find-remove_key c key j h)
            (ground (arith, passed_mono e.expire_at now later le))
    ]
  ]

  -- `Remove` of a valid cache takes away the key from what a `Get` can read, and nothing else.
  peek-remove :
      (c : Cache V) (key j : Key) (now : ℕ)
      → IsValid c
      → peek (remove c key) j now ≡ ite (key_dec key j) none (peek c j now)
  unfolding answer
  peek-remove c key j now h = rw (find-remove_key c key j h) (ground arith)
