-- ===== src/Filter/Admission.antt =====
-- A gate of groupcache_filter.go, the keys that were added to its filter, and whether it is warm.
use cachecore.Base.{
  ℕ, suc, ◌≡◌, refl, sym, ap, ◌∙◌, subst, Bool, true, false, List, [], ◌∷◌, Option, some, All,
  All-map, arith, Bool-cases, inl, inr,
}
use mathlib.Core.Bool.{true≢false}
use cachecore.Bloom
use cachecore.Bloom.{BloomFilter}
use cachecore.Bloom.Membership.{HasBits, contains-add_self, contains-add, add-HasBits}
use cachecore.Filter.{FilterOps, FilterGate, add_key, add, rejects, load_loop, warmup, reset}
use cachecore.Go.Bytes.{Key}

-- A filter that keeps what is added to it, in the states that are sound.
pub record KeepsItems (S : Type 0) ⦃o : FilterOps S⦄ : Type 1 where
  pub IsSound : S → Type 0
  pub sound : (s : S) (key : Key) → IsSound s → IsSound (o.add_item s key)
  pub itself : (s : S) (key : Key) → IsSound s → o.contains_item (o.add_item s key) key ≡ true
  pub others :
      (s : S) (key j : Key)
      → IsSound s
      → o.contains_item s j ≡ true
      → o.contains_item (o.add_item s key) j ≡ true

instance unfoldable pub bloom_FilterOps : FilterOps BloomFilter
bloom_FilterOps = record {
  add_item = Bloom.add;
  contains_item = Bloom.contains;
  reset_items = some Bloom.reset;
}

-- The Bloom filter with 1 to 2^32 - 1 bits is one.
unfoldable pub bloom_KeepsItems : KeepsItems BloomFilter
unfolding bloom_FilterOps
bloom_KeepsItems = record {
  IsSound = HasBits;
  sound = add-HasBits;
  itself = contains-add_self;
  others = contains-add;
}

module _ {S : Type 0} ⦃o : FilterOps S⦄ (k : KeepsItems S) where
  load_loop-keeps :
      (loads : ℕ → Bool) (keys : List Key) (f : FilterGate S) (j : Key)
      → k.IsSound f.filter
      → o.contains_item f.filter j ≡ true
      → o.contains_item (load_loop loads keys f).0.filter j ≡ true
  unfolding load_loop add_key
  load_loop-keeps loads [] f j s c = c
  load_loop-keeps loads (key ∷ keys) f j s c = elim (Bool-cases (loads 0)) [
    | inl e ↦ rw e (
        load_loop-keeps (λ i. loads (suc i)) keys (add_key f key) j (k.sound f.filter key s)
          (k.others f.filter key j s c))
    | inr e ↦ rw e (load_loop-keeps (λ i. loads (suc i)) keys f j s c)
  ]

  load_loop-admits :
      (loads : ℕ → Bool) (keys : List Key) (f : FilterGate S)
      → k.IsSound f.filter
      → (load_loop loads keys f).1 ≡ true
      → All (λ j. o.contains_item (load_loop loads keys f).0.filter j ≡ true) keys
  unfolding load_loop add_key
  load_loop-admits loads [] f s e = tt
  load_loop-admits loads (key ∷ keys) f s e = elim (Bool-cases (loads 0)) [
    | inl t ↦
        let g = add_key f key in
        let later : ℕ → Bool = λ i. loads (suc i) in
        let same : load_loop loads (key ∷ keys) f ≡ load_loop later keys g = rw t refl in
        let s' = k.sound f.filter key s in
        subst (λ r. All (λ j. o.contains_item r.0.filter j ≡ true) (key ∷ keys)) (sym same)
          (
            load_loop-keeps later keys g key s' (k.itself f.filter key s),
            load_loop-admits later keys g s' (sym (ap (λ r. r.1) same) ∙ e),
          )
    | inr t ↦
        let same : (load_loop loads (key ∷ keys) f).1 ≡ false = rw t refl in
        absurd (true≢false (sym e ∙ same))
  ]

  load_loop-IsSound :
      (loads : ℕ → Bool) (keys : List Key) (f : FilterGate S)
      → k.IsSound f.filter
      → k.IsSound (load_loop loads keys f).0.filter
  unfolding load_loop add_key
  load_loop-IsSound loads [] f s = s
  load_loop-IsSound loads (key ∷ keys) f s = elim (Bool-cases (loads 0)) [
    | inl t ↦
        rw t (load_loop-IsSound (λ i. loads (suc i)) keys (add_key f key) (k.sound f.filter key s))
    | inr t ↦ rw t (load_loop-IsSound (λ i. loads (suc i)) keys f s)
  ]

module _ {S : Type 0} ⦃o : FilterOps S⦄ where
  -- The keys of a list added one by one.
  unfoldable pub add_each : Option (FilterGate S) → List Key → Option (FilterGate S)
  add_each f [] = f
  add_each f (key ∷ keys) = add_each (add f key) keys

  -- The gate lets the key through.
  abbrev pub Admits : Option (FilterGate S) → Key → Type 0
  Admits f j = rejects f j ≡ false

  pub rejects-contains :
      (f : FilterGate S) (j : Key) → o.contains_item f.filter j ≡ true → Admits (some f) j
  unfolding rejects
  rejects-contains f j c = ground arith

module _ {S : Type 0} ⦃o : FilterOps S⦄ (k : KeepsItems S) where
  add_each-Admits :
      (added : List Key) (f : FilterGate S) (j : Key)
      → k.IsSound f.filter
      → o.contains_item f.filter j ≡ true
      → Admits (add_each (some f) added) j
  unfolding add_each add add_key
  add_each-Admits [] f j s c = rejects-contains f j c
  add_each-Admits (key ∷ added) f j s c =
      add_each-Admits added (add_key f key) j (k.sound f.filter key s) (k.others f.filter key j s c)

  add_each-Admits_self :
      (added : List Key) (f : FilterGate S)
      → k.IsSound f.filter
      → All (Admits (add_each (some f) added)) added
  unfolding add_each add add_key
  add_each-Admits_self [] f s = tt
  add_each-Admits_self (key ∷ added) f s =
      let s' = k.sound f.filter key s in
      (
        add_each-Admits added (add_key f key) key s' (k.itself f.filter key s),
        add_each-Admits_self added (add_key f key) s',
      )

  -- With a filter that keeps what is added to it, after a warmup succeeds and any keys are added, the gate
  -- turns away neither a key of the warmup nor an added one.
  pub warmup-Admits :
      (f : FilterGate S) (keys added : List Key) (loads : ℕ → Bool)
      → k.IsSound f.filter
      → (warmup (some f) keys loads).1 ≡ true
      → All (Admits (add_each (warmup (some f) keys loads).0 added)) keys
        × All (Admits (add_each (warmup (some f) keys loads).0 added)) added
  unfolding warmup
  warmup-Admits f keys added loads s e = elim (Bool-cases (load_loop loads keys f).1) [
    | inl t ↦
        let g : FilterGate S = record (load_loop loads keys f).0 {
          ready = true;
          warmup_keys = keys;
        } in
        let same : warmup (some f) keys loads ≡ (some g, true) = rw (warmup, t) refl in
        let s' = load_loop-IsSound k loads keys f s in
        subst
          (λ r. All (Admits (add_each r.0 added)) keys × All (Admits (add_each r.0 added)) added)
          (sym same)
          (
            All-map _ _ (λ j c. add_each-Admits added g j s' c) keys
                (load_loop-admits k loads keys f s t),
            add_each-Admits_self added g s',
          )
    | inr t ↦
        let same : (warmup (some f) keys loads).1 ≡ false = rw (warmup, t) refl in
        absurd (true≢false (sym e ∙ same))
  ]

module _ {S : Type 0} ⦃o : FilterOps S⦄ where
  load_loop-ready :
      (loads : ℕ → Bool) (keys : List Key) (f : FilterGate S)
      → (load_loop loads keys f).0.ready ≡ f.ready
  unfolding load_loop add_key
  load_loop-ready loads [] f = refl
  load_loop-ready loads (key ∷ keys) f = elim (Bool-cases (loads 0)) [
    | inl t ↦ rw t (load_loop-ready (λ i. loads (suc i)) keys (add_key f key))
    | inr t ↦ rw t (load_loop-ready (λ i. loads (suc i)) keys f)
  ]

  unready-Admits : (f : FilterGate S) (j : Key) → f.ready ≡ false → rejects (some f) j ≡ false
  unfolding rejects
  unready-Admits f j e = rw (rejects, e) refl

  -- A gate turns nothing away after its filter is reset, nor after a warmup that fails from there.
  reset-opens :
      (f : FilterGate S) (reset_items : S → S) (loads : ℕ → Bool) (keys : List Key) (j : Key)
      → (warmup (some (reset f reset_items)) keys loads).1 ≡ false
      → (rejects (some (reset f reset_items)) j ≡ false)
        × (rejects (warmup (some (reset f reset_items)) keys loads).0 j ≡ false)
  unfolding reset warmup
  reset-opens f reset_items loads keys j e =
      let cleared = reset f reset_items in
      elim (Bool-cases (load_loop loads keys cleared).1) [
        | inl t ↦
            let same : (warmup (some cleared) keys loads).1 ≡ true = rw (warmup, t) refl in
            absurd (true≢false (sym same ∙ e))
        | inr t ↦
            let same : (warmup (some cleared) keys loads).0
                ≡ some (load_loop loads keys cleared).0 =
              rw (warmup, t) refl in
            (
              unready-Admits cleared j refl,
              subst (λ g. rejects g j ≡ false) (sym same)
                  (unready-Admits (load_loop loads keys cleared).0 j
                    (load_loop-ready loads keys cleared)),
            )
      ]
