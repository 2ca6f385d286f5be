-- ===== src/Lru.antt =====
-- internal/lru/lru.go: the size-limited LRU cache. Readings of the clock are arguments, and a call
-- of `onEvicted` adds to the log `evicted`. The sizes are words of 64 bits, as in the source.
pub mod Invariant
pub mod Methods
pub mod Shrink
pub mod Add
pub mod Reads
pub mod Expire
pub mod Runs
use cachecore.Base.{
  ℕ, zero, suc, Bool, true, false, not, ◌&&◌, List, [], ◌∷◌, ◌++◌, reverse, Option, none, some,
  ◌==◌, if◌then◌else◌, length,
}
use cachecore.Go.Bytes.{Key}
use cachecore.Expiry.{Value, passed, deadline}
use cachecore.Go.Int64
use cachecore.Go.Int64.{Int64, of_nat, slt}
use cachecore.Go.Map
use cachecore.Go.Map.{Map}
use cachecore.Go.LinkedList.{Element, value_of, push_front, move_to_front, set_value, back, front}
use cachecore.Go.LinkedList

pub record Entry (V : Type 0) : Type 0 where
  pub key : Key
  pub value : V
  -- `none` is the zero time, which never expires
  pub expire_at : Option ℕ

pub record Cache (V : Type 0) : Type 0 where
  pub max_bytes : Int64
  pub curbytes : Int64
  pub ll : List (Element (Entry V))
  pub cache : Map ℕ
  pub on_evicted : Bool
  pub evicted : List (Key × V)
  pub next_id : ℕ

module _ {V : Type 0} where
  unfoldable pub new : Int64 → Bool → Cache V
  new max_bytes on_evicted = record {
    max_bytes = max_bytes;
    curbytes = 0;
    ll = [];
    cache = [];
    on_evicted = on_evicted;
    evicted = [];
    next_id = 0;
  }

  abbrev pub entry_key : Entry V → Key
  entry_key e = e.key

module _ {V : Type 0} ⦃v : Value V⦄ where
  -- `int64(len(kv.key)) + int64(kv.value.Len())`
  unfoldable pub cost : Entry V → Int64
  cost kv = Int64.add (of_nat (length kv.key)) (of_nat (v.len kv.value))

  -- What `RemoveOldest` and `Remove` do with an element that they have found.
  unfoldable pub discard : Cache V → ℕ → Entry V → Key → Cache V
  discard c ele kv key = record c {
    ll = LinkedList.remove ele c.ll;
    cache = Map.delete key c.cache;
    curbytes = Int64.sub c.curbytes (cost kv);
    evicted = if c.on_evicted then c.evicted ++ (kv.key, kv.value) ∷ [] else c.evicted;
  }

  unfoldable pub remove : Cache V → Key → Cache V
  remove c key = elim (Map.lookup key c.cache) [
    | none ↦ c
    | some ele ↦ elim (value_of ele c.ll) [ none ↦ c | some kv ↦ discard c ele kv key ]
  ]

  unfoldable pub remove_oldest : Cache V → Cache V
  remove_oldest c = elim (back c.ll) [
    | none ↦ c
    | some ele ↦ discard c ele.id ele.value ele.value.key
  ]

  -- `if ele != c.ll.Front() { c.ll.MoveToFront(ele) }`
  unfoldable pub touch : Cache V → ℕ → Cache V
  touch c ele = elim (front c.ll) [
    | none ↦ c
    | some f ↦ if f.id == ele then c else record c { ll = move_to_front ele c.ll }
  ]

  unfoldable pub get : Cache V → Key → ℕ → Cache V × Option V
  get c key now = elim (Map.lookup key c.cache) [
    | none ↦ (c, none)
    | some ele ↦ elim (value_of ele c.ll) [
      | none ↦ (c, none)
      | some kv ↦
          if passed kv.expire_at now then (remove c key, none) else (touch c ele, some kv.value)
    ]
  ]

  -- The branch of `AddWithTTL` for a key that is there.
  unfoldable pub update : Cache V → ℕ → Entry V → V → Int64 → ℕ → Cache V
  update c ele kv value ttl now = record c {
    ll =
        set_value ele (record kv { value = value; expire_at = deadline ttl now })
          (move_to_front ele c.ll);
    curbytes = Int64.add c.curbytes (Int64.sub (of_nat (v.len value)) (of_nat (v.len kv.value)));
  }

  -- The branch for a new key.
  unfoldable pub insert : Cache V → Key → V → Int64 → ℕ → Cache V
  insert c key value ttl now = record c {
    ll = push_front c.next_id kv c.ll;
    cache = Map.insert key c.next_id c.cache;
    curbytes = Int64.add c.curbytes (cost kv);
    next_id = suc c.next_id;
  }
    where
      kv : Entry V
      kv = record { key = key; value = value; expire_at = deadline ttl now }

  unfoldable pub store : Cache V → Key → V → Int64 → ℕ → Cache V
  store c key value ttl now = elim (Map.lookup key c.cache) [
    | none ↦ insert c key value ttl now
    | some ele ↦ elim (value_of ele c.ll) [ none ↦ c | some kv ↦ update c ele kv value ttl now ]
  ]

  -- `c.maxBytes != 0 && c.curbytes > c.maxBytes`
  unfoldable pub is_over : Cache V → Bool
  is_over c = not (c.max_bytes == 0) && slt c.max_bytes c.curbytes

  -- The loop of `AddWithTTL`; `none` means that the fuel ran out.
  unfoldable pub shrink : ℕ → Cache V → Option (Cache V)
  shrink zero c = none
  shrink (suc fuel) c = elim (is_over c) [ true ↦ shrink fuel (remove_oldest c) | false ↦ some c ]

  -- One round for each entry and one to leave the loop.
  unfoldable pub add_with_ttl : Cache V → Key → V → Int64 → ℕ → Option (Cache V)
  add_with_ttl c key value ttl now =
      let stored = store c key value ttl now in shrink (suc (length stored.ll)) stored

  unfoldable pub add : Cache V → Key → V → ℕ → Option (Cache V)
  add c key value now = add_with_ttl c key value 0 now

  -- The body of the loop of `RemoveExpired`.
  unfoldable pub visit : Cache V → Element (Entry V) → ℕ → Cache V
  visit c e now = if passed e.value.expire_at now then remove c e.value.key else c

  -- The loop of `RemoveExpired`, over the elements from the back on. `clock n` is the reading in
  -- round n.
  unfoldable pub sweep : (ℕ → ℕ) → ℕ → List (Element (Entry V)) → Cache V → Cache V
  sweep clock n [] c = c
  sweep clock n (e ∷ l) c = sweep clock (suc n) l (visit c e (clock n))

  unfoldable pub remove_expired : Cache V → (ℕ → ℕ) → Cache V
  remove_expired c clock = sweep clock 0 (reverse c.ll) c

  unfoldable pub count : Cache V → ℕ
  count c = length c.ll
