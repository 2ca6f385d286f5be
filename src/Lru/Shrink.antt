-- ===== src/Lru/Shrink.antt =====
-- The loop of `AddWithTTL`: when it ends, and what it evicts.
use cachecore.Base.{
  ℕ, zero, suc, ◌+◌, ◌<◌, ◌≤◌, ◌≡◌, refl, sym, ◌∙◌, ap, true, false, not, ◌&&◌, ◌⊎◌, inl, inr, List,
  [], ◌∷◌, ◌++◌, Option, some, arith, length, length-append, Option-cases, Bool-cases,
  if◌then◌else◌, ltb, ◌==◌,
}
use mathlib.Core.List.{append_assoc, append-nil}
use cachecore.Expiry.{Value}
use cachecore.Go.Bytes.{Key}
use cachecore.Go.Int64.{half, slt_nonneg, of_nat_small}
use cachecore.Go.LinkedList.{Element, back, total, back-eq-some, back-eq-none, total-append}
use cachecore.Lru.{Entry, Cache, entry_key, discard, remove_oldest, is_over, shrink}
use cachecore.Lru.Invariant.{size, IsValid, remove_oldest-IsValid}

module _ {V : Type 0} ⦃v : Value V⦄ where
  -- What the eviction callback is told of elements dropped from the back, the last one first.
  abbrev pub report : List (Element (Entry V)) → List (Key × V)
  report [] = []
  report (e ∷ d) = report d ++ (e.value.key, e.value.value) ∷ []

  pub report-append :
      (d : List (Element (Entry V))) (e : Element (Entry V))
      → report (d ++ e ∷ []) ≡ (e.value.key, e.value.value) ∷ report d
  report-append [] e = refl
  report-append (x ∷ d) e = rw (report-append d e)

  -- Within the limit; the limit 0 is none.
  abbrev pub Fits : Cache V → Type 0
  Fits c = (c.max_bytes ≡ 0) ⊎ (total size c.ll ≤ c.max_bytes)

  -- Nothing was dropped that would have fitted.
  abbrev pub IsTight : ℕ → List (Element (Entry V)) → List (Element (Entry V)) → Type 0
  IsTight max kept [] = Unit {0}
  IsTight max kept (e ∷ d) = max < total size kept + size e.value

  -- `c'` is `c` with the entries `d` dropped from the back of the list and reported.
  pub record Drops (c c' : Cache V) (d : List (Element (Entry V))) : Type 0 where
    pub kept : c.ll ≡ c'.ll ++ d
    pub max_bytes : c'.max_bytes ≡ c.max_bytes
    pub on_evicted : c'.on_evicted ≡ c.on_evicted
    pub logged : c'.evicted ≡ (if c.on_evicted then c.evicted ++ report d else c.evicted)

  -- With sizes below 2 ^ 63 the signed test compares the size of the entries with the limit.
  pub is_over_small :
      (c : Cache V)
      → IsValid c
      → c.max_bytes < half
      → total size c.ll < half
      → is_over c ≡ (not (c.max_bytes == 0) && ltb c.max_bytes (total size c.ll))
  unfolding is_over
  is_over_small c h m t =
      rw (h.counted, of_nat_small (total size c.ll) (omega arith), slt_nonneg _ _ m t)

  total_pos : (l : List (Element (Entry V))) → 0 < total size l → 0 < length l
  unfolding total
  total_pos [] h = h
  total_pos (e ∷ l) h = omega arith

  -- One round drops the last entry.
  remove_oldest-Drops :
      (c : Cache V)
      → IsValid c
      → 0 < length c.ll
      → (e : Element (Entry V)) × Drops c (remove_oldest c) (e ∷ [])
  unfolding remove_oldest discard
  remove_oldest-Drops c h p = elim (Option-cases (back c.ll)) [
    | inl empty ↦ absurd (omega (arith, ap length (back-eq-none c.ll empty)))
    | inr (e, last) ↦
        let (_, split) = back-eq-some entry_key c.ll e h.distinct last in
        (
          e,
          rw (last, remove_oldest)
              (record { kept = split; max_bytes = refl; on_evicted = refl; logged = refl }),
        )
  ]

  Drops-Drops :
      (c c1 c2 : Cache V) (e : Element (Entry V)) (d : List (Element (Entry V)))
      → Drops c c1 (e ∷ [])
      → Drops c1 c2 d
      → Drops c c2 (d ++ e ∷ [])
  Drops-Drops c c1 c2 e d first rest = record {
    kept = first.kept ∙ ap (λ l. l ++ e ∷ []) rest.kept ∙ append_assoc c2.ll d (e ∷ []);
    max_bytes = rest.max_bytes ∙ first.max_bytes;
    on_evicted = rest.on_evicted ∙ first.on_evicted;
    logged = ground (
      arith,
      rest.logged,
      first.logged,
      first.on_evicted,
      report-append d e,
      append_assoc c.evicted ((e.value.key, e.value.value) ∷ []) (report d),
    );
  }

  IsTight-append :
      (max : ℕ) (kept d : List (Element (Entry V))) (e : Element (Entry V))
      → IsTight max kept d
      → max < total size (kept ++ d) + size e.value
      → IsTight max kept (d ++ e ∷ [])
  IsTight-append max kept [] e t h =
      omega (arith, total-append size kept [], ap (total size) (append-nil kept))
  IsTight-append max kept (x ∷ d) e t h = t

  -- What one round does when the cache is over its limit.
  round :
      (c : Cache V)
      → IsValid c
      → c.max_bytes < total size c.ll
      → (e : Element (Entry V)) × Drops c (remove_oldest c) (e ∷ [])
        × (length c.ll ≡ suc (length (remove_oldest c).ll))
        × (total size c.ll ≡ total size (remove_oldest c).ll + size e.value)
  unfolding total
  round c h over =
      let (e, dropped) = remove_oldest-Drops c h (total_pos c.ll (omega arith)) in
      (
        e,
        dropped,
        omega (arith, ap length dropped.kept, length-append (remove_oldest c).ll (e ∷ [])),
        omega
            (arith, ap (total size) dropped.kept, total-append size (remove_oldest c).ll (e ∷ [])),
      )

  -- What the loop comes to, from `c`: a valid cache that fits, with entries of `c` dropped from the
  -- back, in order and reported, and no more of them than needed.
  pub record Shrunk (c : Cache V) (result : Option (Cache V)) : Type 0 where
    pub after : Cache V
    pub dropped : List (Element (Entry V))
    pub ends : result ≡ some after
    pub valid : IsValid after
    pub drops : Drops c after dropped
    pub fits : Fits after
    pub tight : IsTight c.max_bytes after.ll dropped
    pub unlimited : c.max_bytes ≡ 0 → dropped ≡ []

  shrink_fitting :
      (fuel : ℕ) (c : Cache V)
      → IsValid c
      → c.max_bytes < half
      → total size c.ll < half
      → is_over c ≡ false
      → Shrunk c (shrink (suc fuel) c)
  unfolding shrink
  shrink_fitting fuel c h m t fits = record {
    after = c;
    dropped = [];
    ends = rw (fits, shrink);
    valid = h;
    drops = record {
      kept = sym (append-nil c.ll);
      max_bytes = refl;
      on_evicted = refl;
      logged = ground (arith, append-nil c.evicted);
    };
    fits = ground (arith, is_over_small c h m t);
    tight = tt;
    unlimited = λ z. refl;
  }

  no_limit : (c : Cache V) → c.max_bytes ≡ 0 → is_over c ≡ true → ⊥
  unfolding is_over
  no_limit c z over = ground arith

  shrink_over :
      (fuel : ℕ) (c : Cache V) (e : Element (Entry V))
      → is_over c ≡ true
      → Drops c (remove_oldest c) (e ∷ [])
      → c.max_bytes < total size (remove_oldest c).ll + size e.value
      → Shrunk (remove_oldest c) (shrink fuel (remove_oldest c))
      → Shrunk c (shrink (suc fuel) c)
  unfolding shrink
  shrink_over fuel c e over first limit rest = record {
    after = rest.after;
    dropped = rest.dropped ++ e ∷ [];
    ends = rw (over, shrink) rest.ends;
    valid = rest.valid;
    drops = Drops-Drops c (remove_oldest c) rest.after e rest.dropped first rest.drops;
    fits = rest.fits;
    tight =
        IsTight-append c.max_bytes rest.after.ll rest.dropped e (rw first.max_bytes at rest.tight)
          (omega (arith, ap (total size) rest.drops.kept));
    unlimited = λ z. absurd (no_limit c z over);
  }

  over-lt :
      (c : Cache V)
      → IsValid c
      → c.max_bytes < half
      → total size c.ll < half
      → is_over c ≡ true
      → c.max_bytes < total size c.ll
  over-lt c h m t over = ground (arith, is_over_small c h m t)

  -- In a valid cache with a limit that is not negative and entries of less than 2 ^ 63 bytes
  -- together, the loop ends within one round for each entry; what it drops is the end of the list,
  -- which it reports, and no more than the limit asks for.
  pub shrink-Shrunk :
      (fuel : ℕ) (c : Cache V)
      → IsValid c
      → c.max_bytes < half
      → total size c.ll < half
      → length c.ll < fuel
      → Shrunk c (shrink fuel c)
  shrink-Shrunk zero c h m t f = elim f [ ]
  shrink-Shrunk (suc fuel) c h m t f = elim (Bool-cases (is_over c)) [
    | inr fits ↦ shrink_fitting fuel c h m t fits
    | inl over ↦
        let limit = over-lt c h m t over in
        let (e, first, shorter, lighter) = round c h limit in
        shrink_over fuel c e over first (omega (arith, limit, lighter)) (
          shrink-Shrunk fuel (remove_oldest c) (remove_oldest-IsValid h) (rw first.max_bytes m)
            (omega (arith, lighter)) (omega (arith, shorter)))
  ]
