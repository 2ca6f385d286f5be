-- ===== src/Shards/Routing.antt =====
-- Whole histories of calls of a sharded cache.
use cachecore.Base.{
  ℕ, zero, suc, ◌<◌, ◌≡◌, refl, sym, ◌∙◌, ap, subst, Bool, List, [], ◌∷◌, Option, none, some,
  some-injective, arith, length, get_elem?, set, replicate, length-set, length-replicate, ◌>>=◌,
  All,
}
use native.Mathlib.Nat.{mod-lt}
use cachecore.Go.Bytes.{Bytes, Key}
use cachecore.Go.Int64.{Int64}
use cachecore.Slru.{Ratio}
use cachecore.Slru.Good.{AreLimits, effective}
use cachecore.Shards.{
  ShardedCache, new, index, bucket, put, add_with_ttl, get, increment, remove, clear_each,
  clearup_expired,
}
use cachecore.Store
use cachecore.Store.{Store}
use cachecore.Store.Runs as StoreRuns
use cachecore.Store.Runs.{
  Call, adds, gets, increments, removes, clears, IsSmall, IsGood, StepReturns,
}
use cachecore.Store.Histories.{step-StepReturns}
use cachecore.View.{ByteView}

assoc_bind :
    {A B C : Type 0} (o : Option A) (f : A → Option B) (h : B → Option C)
    → ((o >>= f) >>= h) ≡ (o >>= (λ a. f a >>= h))
assoc_bind none f h = refl
assoc_bind (some a) f h = refl

bind_cong :
    {A B : Type 0} (o : Option A) (f g : A → Option B)
    → ((a : A) → f a ≡ g a)
    → (o >>= f) ≡ (o >>= g)
bind_cong none f g e = refl
bind_cong (some a) f g e = e a

module _ {F : Type 0} ⦃r : Ratio F⦄ where
  unfoldable pub step : ShardedCache F → Call → Option (ShardedCache F)
  step sc (adds key value ttl now) = add_with_ttl sc key value ttl now
  step sc (gets key now) = do done ← get sc key now; some done.0
  step sc (increments key delta ttl make now later) = do
    done ← increment sc key delta ttl make now later
    some done.0
  step sc (removes key) = remove sc key
  step sc (clears clock) = some (clearup_expired sc (λ i. clock))

  unfoldable pub run : ShardedCache F → List Call → Option (ShardedCache F)
  run sc [] = some sc
  run sc (call ∷ calls) = do sc' ← step sc call; run sc' calls

  -- There are `n` shards, at least one, and each is valid and within the limit.
  pub record AreGood (n : ℕ) (max : Int64) (ratio : F) (sc : ShardedCache F) : Type 0 where
    pub count : length sc.cs ≡ sc.m
    pub shards : sc.m ≡ n
    pub positive : 0 < n
    pub each : All (IsGood max ratio) sc.cs

  abbrev pub Returns : ℕ → Int64 → F → Option (ShardedCache F) → Type 0
  Returns n max ratio result = (sc : ShardedCache F) × (result ≡ some sc) × AreGood n max ratio sc

  All-set :
      (P : Store F → Type 0) (cs : List (Store F)) (i : ℕ) (c : Store F)
      → All P cs
      → P c
      → All P (set cs i c)
  All-set P [] i c a p = tt
  All-set P (d ∷ cs) zero c a p = (p, a.1)
  All-set P (d ∷ cs) (suc i) c a p = (a.0, All-set P cs i c a.1 p)

  All-get :
      (P : Store F → Type 0) (cs : List (Store F)) (i : ℕ)
      → All P cs
      → i < length cs
      → (c : Store F) × (get_elem? cs i ≡ some c) × P c
  All-get P [] i a h = absurd (omega arith)
  All-get P (c ∷ cs) zero a h = (c, refl, a.0)
  All-get P (c ∷ cs) (suc i) a h = All-get P cs i a.1 (omega arith)

  bucket-IsGood :
      (n : ℕ) (max : Int64) (ratio : F) (sc : ShardedCache F) (key : Key)
      → AreGood n max ratio sc
      → (c : Store F) × (bucket sc key ≡ some c) × IsGood max ratio c
  unfolding bucket index
  bucket-IsGood n max ratio sc key g =
      All-get (IsGood max ratio) sc.cs _ g.each (rw (g.count, g.shards) (mod-lt _ g.positive))

  put-AreGood :
      (n : ℕ) (max : Int64) (ratio : F) (sc : ShardedCache F) (key : Key) (c : Store F)
      → AreGood n max ratio sc
      → IsGood max ratio c
      → AreGood n max ratio (put sc key c)
  unfolding put
  put-AreGood n max ratio sc key c g h = record {
    count = length-set sc.cs (index sc key) c ∙ g.count;
    shards = g.shards;
    positive = g.positive;
    each = All-set (IsGood max ratio) sc.cs (index sc key) c g.each h;
  }

  -- A call with a key: its bucket, changed by the call.
  through : ShardedCache F → Key → Call → Option (ShardedCache F)
  through sc key call = do c ← bucket sc key; c' ← StoreRuns.step c call; some (put sc key c')

  through-Returns :
      (n : ℕ) (max : Int64) (ratio : F) (sc : ShardedCache F) (key : Key) (call : Call)
      → AreLimits max (effective ratio)
      → IsSmall max call
      → AreGood n max ratio sc
      → Returns n max ratio (through sc key call)
  unfolding through
  through-Returns n max ratio sc key call m small g =
      let (c, e, h) = bucket-IsGood n max ratio sc key g in
      let (c', e', h') = step-StepReturns max ratio c call m small h in
      (put sc key c', rw (through, e, ◌>>=◌, e') refl, put-AreGood n max ratio sc key c' g h')

  get-through :
      (sc : ShardedCache F) (key : Key) (now : ℕ)
      → step sc (gets key now) ≡ through sc key (gets key now)
  unfolding step get through StoreRuns.step
  get-through sc key now = assoc_bind (bucket sc key) _ _

  increment-through :
      (sc : ShardedCache F) (key : Key) (delta ttl : Int64) (make : Option (Bytes → ByteView))
      (now later : ℕ)
      → step sc (increments key delta ttl make now later)
        ≡ through sc key (increments key delta ttl make now later)
  unfolding step increment through StoreRuns.step
  increment-through sc key delta ttl make now later =
      assoc_bind (bucket sc key) _ _
      ∙ bind_cong (bucket sc key) _ _ (λ c.
        let o = Store.increment c key delta ttl make now later in
        assoc_bind o _ _ ∙ sym (assoc_bind o _ _))

  clear_each-IsGood :
      (max : Int64) (ratio : F) (clock : ℕ → ℕ → ℕ) (i : ℕ) (cs : List (Store F))
      → AreLimits max (effective ratio)
      → All (IsGood max ratio) cs
      → (length (clear_each clock i cs) ≡ length cs)
        × All (IsGood max ratio) (clear_each clock i cs)
  unfolding clear_each StoreRuns.step
  clear_each-IsGood max ratio clock i [] m a = (refl, tt)
  clear_each-IsGood max ratio clock i (c ∷ cs) m a =
      let (c', e, g) = step-StepReturns max ratio c (clears (clock i)) m tt a.0 in
      let (l, b) = clear_each-IsGood max ratio clock (suc i) cs m a.1 in
      (ap suc l, (subst (IsGood max ratio) (sym (some-injective _ _ e)) g, b))

  step-Returns :
      (n : ℕ) (max : Int64) (ratio : F) (sc : ShardedCache F) (call : Call)
      → AreLimits max (effective ratio)
      → IsSmall max call
      → AreGood n max ratio sc
      → Returns n max ratio (step sc call)
  unfolding step add_with_ttl remove clearup_expired through StoreRuns.step
  step-Returns n max ratio sc (adds key value ttl now) m small g =
      through-Returns n max ratio sc key (adds key value ttl now) m small g
  step-Returns n max ratio sc (gets key now) m small g =
      subst (Returns n max ratio) (sym (get-through sc key now))
        (through-Returns n max ratio sc key (gets key now) m small g)
  step-Returns n max ratio sc (increments key delta ttl make now later) m small g =
      subst (Returns n max ratio) (sym (increment-through sc key delta ttl make now later))
        (through-Returns n max ratio sc key (increments key delta ttl make now later) m small g)
  step-Returns n max ratio sc (removes key) m small g =
      through-Returns n max ratio sc key (removes key) m small g
  step-Returns n max ratio sc (clears clock) m small g =
      let (l, a) = clear_each-IsGood max ratio (λ i. clock) 0 sc.cs m g.each in
      (
        clearup_expired sc (λ i. clock),
        refl,
        record { count = l ∙ g.count; shards = g.shards; positive = g.positive; each = a },
      )

  run-Returns :
      (n : ℕ) (max : Int64) (ratio : F) (calls : List Call) (sc : ShardedCache F)
      → AreLimits max (effective ratio)
      → All (IsSmall max) calls
      → AreGood n max ratio sc
      → Returns n max ratio (run sc calls)
  unfolding run
  run-Returns n max ratio [] sc m small g = (sc, refl, g)
  run-Returns n max ratio (call ∷ calls) sc m small g =
      let (s1, e1, g1) = step-Returns n max ratio sc call m small.0 g in
      let (s2, e2, g2) = run-Returns n max ratio calls s1 m small.1 g1 in
      (s2, rw (e1, ◌>>=◌) e2, g2)

  All-replicate : (P : Store F → Type 0) (n : ℕ) (c : Store F) → P c → All P (replicate n c)
  All-replicate P zero c p = tt
  All-replicate P (suc n) c p = (p, All-replicate P n c p)

  -- Every history of calls of a new cache with at least one shard returns: no call finds a shard
  -- missing. Every shard stays valid and within the limit of a shard, which is positive, with what
  -- a call can store stays below 2 ^ 63, and whose product with the ratio is a word.
  pub run-new-Returns :
      (seed m : ℕ) (max : Int64) (ratio : F) (has_on_evicted use_slru : Bool) (calls : List Call)
      → 0 < m
      → AreLimits max (effective ratio)
      → All (IsSmall max) calls
      → Returns m max ratio (run (new seed m max has_on_evicted use_slru ratio) calls)
  unfolding new Store.new
  run-new-Returns seed m max ratio has_on_evicted use_slru calls p limits small =
      run-Returns m max ratio calls (new seed m max has_on_evicted use_slru ratio) limits small
        (record {
          count = length-replicate m _;
          shards = refl;
          positive = p;
          each =
              All-replicate (IsGood max ratio) m _
                (record { stored = tt; cache_bytes = refl; protected_ratio = refl });
        })
