-- ===== src/Slru.antt =====
-- internal/lru/slru.go: the segmented LRU cache. Readings of the clock are arguments, and a call of
-- `onEvicted` adds to the log `evicted`. The sizes are words of 64 bits, as in the source.
pub mod Segments
pub mod Invariant
pub mod Moves
pub mod Shifts
pub mod Methods
pub mod Expire
pub mod Limits
pub mod Demotion
pub mod Good
pub mod Runs
use cachecore.Base.{
  ℕ, zero, suc, ◌+◌, Bool, true, false, not, ◌&&◌, List, [], ◌∷◌, ◌++◌, reverse, Option, none, some,
  ◌==◌, if◌then◌else◌, length, ltb,
}
use cachecore.Expiry.{Value, passed, deadline}
use cachecore.Go.Bytes.{Key}
use cachecore.Go.Int64
use cachecore.Go.Int64.{Int64, of_nat, slt}
use cachecore.Go.LinkedList
use cachecore.Go.LinkedList.{
  Element, value_of, push_front, move_to_front, set_value, back, front, or_else,
}
use cachecore.Go.Map
use cachecore.Go.Map.{Map}

-- The `float64` ratios: `int64(float64(n) * r)`, the test `r <= 0 || r >= 1`, and the constant
-- `defaultProtectedRatio`.
pub record Ratio (F : Type 0) : Type 0 where
  pub scale : Int64 → F → Int64
  pub out_of_range : F → Bool
  pub default_protected : F

pub data Segment : Type 0 where
  seg_probation seg_protected : Segment

pub record Entry (V : Type 0) : Type 0 where
  pub key : Key
  pub value : V
  pub expire_at : Option ℕ
  pub seg : Segment

pub record Cache (F V : Type 0) : Type 0 where
  pub max_bytes : Int64
  pub curbytes : Int64
  pub probation_bytes : Int64
  pub protected_bytes : Int64
  pub protected_ratio : F
  pub probation : List (Element (Entry V))
  pub protected : List (Element (Entry V))
  pub cache : Map ℕ
  pub on_evicted : Bool
  pub evicted : List (Key × V)
  pub next_id : ℕ

module _ {V : Type 0} where
  abbrev pub entry_key : Entry V → Key
  entry_key e = e.key

  -- `if ele != l.Front() { l.MoveToFront(ele) }`
  unfoldable pub touch : ℕ → List (Element (Entry V)) → List (Element (Entry V))
  touch ele l = elim (front l) [
    | none ↦ l
    | some f ↦ if f.id == ele then l else move_to_front ele l
  ]

module _ {V : Type 0} ⦃v : Value V⦄ where
  -- `int64(len(kv.key)) + int64(kv.value.Len())`
  unfoldable pub cost : Entry V → Int64
  cost kv = Int64.add (of_nat (length kv.key)) (of_nat (v.len kv.value))

module _ {F V : Type 0} ⦃r : Ratio F⦄ ⦃v : Value V⦄ where
  unfoldable pub new : Int64 → F → Bool → Cache F V
  new max_bytes ratio on_evicted = record {
    max_bytes = max_bytes;
    curbytes = 0;
    probation_bytes = 0;
    protected_bytes = 0;
    protected_ratio = if r.out_of_range ratio then r.default_protected else ratio;
    probation = [];
    protected = [];
    cache = [];
    on_evicted = on_evicted;
    evicted = [];
    next_id = 0;
  }

  -- `ele.Value`, wherever the element is
  unfoldable pub elem_value : Cache F V → ℕ → Option (Entry V)
  elem_value c ele = or_else (value_of ele c.probation) (value_of ele c.protected)

  -- The list of a segment loses the element, and its counter the cost.
  unfoldable pub take_out : Segment → Cache F V → ℕ → Int64 → Cache F V
  take_out seg_protected c ele n = record c {
    protected = LinkedList.remove ele c.protected;
    protected_bytes = Int64.sub c.protected_bytes n;
  }
  take_out seg_probation c ele n = record c {
    probation = LinkedList.remove ele c.probation;
    probation_bytes = Int64.sub c.probation_bytes n;
  }

  -- `removeElement`, which is always called to evict
  unfoldable pub remove_element : Cache F V → ℕ → Entry V → Cache F V
  remove_element c ele kv =
      let c1 = take_out kv.seg c ele (cost kv) in
      record c1 {
        cache = Map.delete kv.key c.cache;
        curbytes = Int64.sub c.curbytes (cost kv);
        evicted = if c.on_evicted then c.evicted ++ (kv.key, kv.value) ∷ [] else c.evicted;
      }

  unfoldable pub protected_max_bytes : Cache F V → Int64
  protected_max_bytes c =
      let protected_max = r.scale c.max_bytes c.protected_ratio in
      if slt 0 protected_max then protected_max else 1

  -- The body of the loop of `enforceProtectedLimit`, with `kv` at the back of the protected list.
  unfoldable pub demote : Cache F V → ℕ → Entry V → Cache F V
  demote c ele kv = record c {
    protected = LinkedList.remove ele c.protected;
    protected_bytes = Int64.sub c.protected_bytes (cost kv);
    probation = push_front c.next_id (record kv { seg = seg_probation }) c.probation;
    cache = Map.insert kv.key c.next_id c.cache;
    probation_bytes = Int64.add c.probation_bytes (cost kv);
    next_id = suc c.next_id;
  }

  -- The loop of `enforceProtectedLimit`, with as many rounds as the list has elements: it stops on
  -- the empty list.
  unfoldable pub demote_loop : ℕ → Cache F V → Cache F V
  demote_loop zero c = c
  demote_loop (suc n) c = elim (slt (protected_max_bytes c) c.protected_bytes) [
    | false ↦ c
    | true ↦ elim (back c.protected) [ none ↦ c | some e ↦ demote_loop n (demote c e.id e.value) ]
  ]

  unfoldable pub enforce_protected_limit : Cache F V → Cache F V
  enforce_protected_limit c = if slt 0 c.max_bytes then demote_loop (length c.protected) c else c

  -- `c.maxBytes != 0 && c.curbytes > c.maxBytes`
  unfoldable pub is_over : Cache F V → Bool
  is_over c = not (c.max_bytes == 0) && slt c.max_bytes c.curbytes

  -- The element that `RemoveOldest` and `enforceTotalLimit` evict next.
  unfoldable pub oldest : Cache F V → Option (Element (Entry V))
  oldest c = or_else (back c.probation) (back c.protected)

  unfoldable pub remove_oldest : Cache F V → Cache F V
  remove_oldest c = elim (oldest c) [ none ↦ c | some e ↦ remove_element c e.id e.value ]

  -- The loop of `enforceTotalLimit`, with as many rounds as there are elements.
  unfoldable pub shrink : ℕ → Cache F V → Cache F V
  shrink zero c = c
  shrink (suc n) c = elim (is_over c) [
    | false ↦ c
    | true ↦ elim (oldest c) [ none ↦ c | some e ↦ shrink n (remove_element c e.id e.value) ]
  ]

  unfoldable pub enforce_total_limit : Cache F V → Cache F V
  enforce_total_limit c = shrink (length c.probation + length c.protected) c

  -- What `promote` does before it enforces the limits.
  unfoldable pub raise : Cache F V → ℕ → Entry V → Cache F V
  raise c ele kv = record c {
    probation = LinkedList.remove ele c.probation;
    probation_bytes = Int64.sub c.probation_bytes (cost kv);
    protected = push_front c.next_id (record kv { seg = seg_protected }) c.protected;
    cache = Map.insert kv.key c.next_id c.cache;
    protected_bytes = Int64.add c.protected_bytes (cost kv);
    next_id = suc c.next_id;
  }

  unfoldable pub promote : Cache F V → ℕ → Entry V → Cache F V
  promote c ele kv = enforce_total_limit (enforce_protected_limit (raise c ele kv))

  unfoldable pub hit : Segment → Cache F V → ℕ → Entry V → Cache F V
  hit seg_protected c ele kv = record c { protected = touch ele c.protected }
  hit seg_probation c ele kv = promote c ele kv

  unfoldable pub get : Cache F V → Key → ℕ → Cache F V × Option V
  get c key now = elim (Map.lookup key c.cache) [
    | none ↦ (c, none)
    | some ele ↦ elim (elem_value c ele) [
      | none ↦ (c, none)
      | some kv ↦
          if passed kv.expire_at now
          then (remove_element c ele kv, none)
          else (hit kv.seg c ele kv, some kv.value)
    ]
  ]

  -- The branch of `AddWithTTL` for a key that is there, before it enforces the limits. `kv` is the
  -- entry before, and `kv'` after.
  unfoldable pub update : Segment → Cache F V → ℕ → Entry V → Entry V → Cache F V
  update seg_protected c ele kv kv' = record c {
    curbytes = Int64.add c.curbytes (Int64.sub (cost kv') (cost kv));
    protected_bytes = Int64.add c.protected_bytes (Int64.sub (cost kv') (cost kv));
    protected = touch ele (set_value ele kv' c.protected);
  }
  update seg_probation c ele kv kv' = record c {
    curbytes = Int64.add c.curbytes (Int64.sub (cost kv') (cost kv));
    probation_bytes = Int64.add c.probation_bytes (Int64.sub (cost kv') (cost kv));
    probation = touch ele (set_value ele kv' c.probation);
  }

  -- The branch for a new key, before it enforces the limit.
  unfoldable pub insert : Cache F V → Entry V → Cache F V
  insert c kv = record c {
    probation = push_front c.next_id kv c.probation;
    cache = Map.insert kv.key c.next_id c.cache;
    curbytes = Int64.add c.curbytes (cost kv);
    probation_bytes = Int64.add c.probation_bytes (cost kv);
    next_id = suc c.next_id;
  }

  unfoldable pub add_with_ttl : Cache F V → Key → V → Int64 → ℕ → Cache F V
  add_with_ttl c key value ttl now = elim (Map.lookup key c.cache) [
    | some ele ↦ elim (elem_value c ele) [
      | none ↦ c
      | some kv ↦ enforce_total_limit (
          enforce_protected_limit
            (update kv.seg c ele kv (record kv { value = value; expire_at = deadline ttl now })))
    ]
    | none ↦ enforce_total_limit (
        insert c
          (record { key = key; value = value; expire_at = deadline ttl now; seg = seg_probation }))
  ]

  unfoldable pub add : Cache F V → Key → V → ℕ → Cache F V
  add c key value now = add_with_ttl c key value 0 now

  unfoldable pub remove : Cache F V → Key → Cache F V
  remove c key = elim (Map.lookup key c.cache) [
    | none ↦ c
    | some ele ↦ elim (elem_value c ele) [ none ↦ c | some kv ↦ remove_element c ele kv ]
  ]

  -- The loops of `RemoveExpired`, over the elements of a list from the back on.
  unfoldable pub sweep : ℕ → List (Element (Entry V)) → Cache F V → Cache F V
  sweep now [] c = c
  sweep now (e ∷ l) c =
      sweep now l (if passed e.value.expire_at now then remove_element c e.id e.value else c)

  unfoldable pub remove_expired : Cache F V → ℕ → Cache F V
  remove_expired c now =
      let c1 = sweep now (reverse c.probation) c in sweep now (reverse c1.protected) c1

  -- `Len`, the number of keys of the map
  unfoldable pub count : Cache F V → ℕ
  count c = length c.cache
