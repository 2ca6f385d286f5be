-- ===== src/Group/Looks.antt =====
-- The function that `load` gives to the loader, and the counters of the look into the cache.
use cachecore.Base.{
  ℕ, ◌≡◌, refl, sym, ap, ◌∙◌, inl, inr, Bool, true, false, ◌&&◌, Option, none, some, some-injective,
  none-ne-some, Bool-cases, ◌>>=◌, if◌then◌else◌, bind-some,
}
use cachecore.Errors.{
  Error, key_required, not_found, filter_not_found, wait_timeout, non_numeric, server_error, other,
  Answer, ok, err,
}
use cachecore.Filter.{FilterOps, rejects}
use cachecore.Go.Bytes.{Bytes, Key}
use cachecore.Go.Int64.{slt}
use cachecore.Group.{
  CacheOps, Group, next_ttl, store_value, record_stale, add_to_filter, count, keep_value,
  cache_negative, get_from_peer, load_from_peer, get_locally, load_fn,
}
use cachecore.Group.Keeps.{record_stale-keeps}
use cachecore.Group.Loads.{rejected_load, fetched_load, missing_load}
use cachecore.Http.Pool.{Picked, no_peer, nil_getter, picked}
use cachecore.Metrics.{inc_peer_loads, inc_local_loads, inc_filter_misses}
use cachecore.View.{ByteView, view, clone_bytes}

module _ {C S : Type 0} ⦃c : CacheOps C⦄ ⦃o : FilterOps S⦄ where
  -- The counters of the look into the cache.
  abbrev pub looks : Group C S → ℕ × ℕ × ℕ
  looks g = (g.stats.group_gets, g.stats.cache_hits, g.stats.cache_misses)

  main_case :
      (g h : Group C S) (b : Bool) (r : Option C)
      → (if b then (r >>= (λ s. some (record g { main_cache = s }))) else some g) ≡ some h
      → looks h ≡ looks g
  main_case g h false r e = ap looks (sym (some-injective _ _ e))
  main_case g h true r e =
      let f1 : C → Option (Group C S) = λ s. some (record g { main_cache = s }) in
      let (s, _, q) = bind-some r f1 h e in ap looks (sym (some-injective _ _ q))

  cache_negative-looks :
      (g h : Group C S) (key : Key) (now : ℕ)
      → cache_negative g key now ≡ some h
      → looks h ≡ looks g
  unfolding cache_negative
  cache_negative-looks g h key now e =
      main_case g h (g.negative_cache_enabled && slt 0 g.negative_ttl) _ e

  keep_value-looks :
      (g h : Group C S) (key : Key) (value : ByteView) (random now : ℕ)
      → keep_value g key value random now ≡ some h
      → looks h ≡ looks g
  unfolding keep_value store_value add_to_filter
  keep_value-looks g h key value random now e =
      let ttl = next_ttl g.cache_ttl g.cache_ttl_jitter random in
      let (a, p, q) = bind-some (store_value g key value ttl now) _ h e in
      let (b, p2, q2) = bind-some (record_stale a key value ttl now) _ h q in
      ap looks (sym (some-injective _ _ q2))
      ∙ record_stale-keeps looks (λ g s. refl) a b key value ttl now p2
      ∙ main_case g a true
          (if slt 0 ttl
            then c.add_with_ttl g.main_cache key value ttl now
            else c.add g.main_cache key value now)
          p

  get_from_peer-looks :
      (g h : Group C S) (key : Key) (answer : Answer Bytes) (random now : ℕ) (a : Answer ByteView)
      → get_from_peer g key answer random now ≡ some (h, a)
      → looks h ≡ looks g
  unfolding get_from_peer count inc_peer_loads
  get_from_peer-looks g h key (err e) random now a p =
      ap (λ d. looks d.0) (sym (some-injective _ _ p))
  get_from_peer-looks g h key (ok bytes) random now a p =
      let (kept, q, r) =
        bind-some (keep_value (count inc_peer_loads g) key (view (clone_bytes bytes)) random now) _
          (h, a) p in
      ap (λ d. looks d.0) (sym (some-injective _ _ r))
      ∙ keep_value-looks (count inc_peer_loads g) kept key (view (clone_bytes bytes)) random now q

  after_peer :
      (g h : Group C S) (key : Key) (now : ℕ) (a : Answer ByteView) (b : Option (Answer ByteView))
      → Path
          (Option (Group C S × Option (Answer ByteView)))
          (elim a [
            | ok v ↦ some (g, some (ok v))
            | err not_found ↦ do g' ← cache_negative g key now; some (g', some (err not_found))
            | err _ ↦ some (g, none)
          ])
          (some (h, b))
      → looks h ≡ looks g
  after_peer g h key now (ok v) b p = ap (λ d. looks d.0) (sym (some-injective _ _ p))
  after_peer g h key now (err not_found) b p =
      let (g1, q, r) = bind-some (cache_negative g key now) _ (h, b) p in
      ap (λ d. looks d.0) (sym (some-injective _ _ r)) ∙ cache_negative-looks g g1 key now q
  after_peer g h key now (err key_required) b p = ap (λ d. looks d.0) (sym (some-injective _ _ p))
  after_peer g h key now (err (filter_not_found x)) b p =
      ap (λ d. looks d.0) (sym (some-injective _ _ p))
  after_peer g h key now (err wait_timeout) b p = ap (λ d. looks d.0) (sym (some-injective _ _ p))
  after_peer g h key now (err non_numeric) b p = ap (λ d. looks d.0) (sym (some-injective _ _ p))
  after_peer g h key now (err (server_error x y)) b p =
      ap (λ d. looks d.0) (sym (some-injective _ _ p))
  after_peer g h key now (err (other x)) b p = ap (λ d. looks d.0) (sym (some-injective _ _ p))

  load_from_peer-looks :
      (g h : Group C S) (key : Key) (peer : Picked (Answer Bytes)) (random now : ℕ)
      (b : Option (Answer ByteView))
      → load_from_peer g key peer random now ≡ some (h, b)
      → looks h ≡ looks g
  unfolding load_from_peer
  load_from_peer-looks g h key no_peer random now b p =
      ap (λ d. looks d.0) (sym (some-injective _ _ p))
  load_from_peer-looks g h key nil_getter random now b p = absurd (none-ne-some _ p)
  load_from_peer-looks g h key (picked answer) random now b p =
      let (done, q, r) = bind-some (get_from_peer g key answer random now) _ (h, b) p in
      after_peer done.0 h key now done.1 b r
      ∙ get_from_peer-looks g done.0 key answer random now done.1 q

  pub failed :
      (g h : Group C S) (e : Error) (a : Answer ByteView)
      → Path (Option (Group C S × Answer ByteView)) (some (g, err e)) (some (h, a))
      → looks h ≡ looks g
  failed g h e a p = ap (λ d. looks d.0) (sym (some-injective _ _ p))

  fetched-looks :
      (g h : Group C S) (key : Key) (fetched : Answer Bytes) (random now : ℕ) (a : Answer ByteView)
      → rejects g.filter key ≡ false
      → get_locally g key fetched random now ≡ some (h, a)
      → looks h ≡ looks g
  unfolding get_locally count inc_local_loads
  fetched-looks g h key (ok bytes) random now a through p =
      let (g1, q, r) =
        bind-some (keep_value (count inc_local_loads g) key (view bytes) random now) _ (h, a)
          (sym (fetched_load g key bytes random now through) ∙ p) in
      ap (λ d. looks d.0) (sym (some-injective _ _ r))
      ∙ keep_value-looks (count inc_local_loads g) g1 key (view bytes) random now q
  fetched-looks g h key (err not_found) random now a through p =
      let (g1, q, r) =
        bind-some (cache_negative g key now) _ (h, a)
          (sym (missing_load g key random now through) ∙ p) in
      ap (λ d. looks d.0) (sym (some-injective _ _ r)) ∙ cache_negative-looks g g1 key now q
  fetched-looks g h key (err key_required) random now a through p =
      failed g h key_required a (sym (rw (get_locally, through) refl) ∙ p)
  fetched-looks g h key (err (filter_not_found x)) random now a through p =
      failed g h (filter_not_found x) a (sym (rw (get_locally, through) refl) ∙ p)
  fetched-looks g h key (err wait_timeout) random now a through p =
      failed g h wait_timeout a (sym (rw (get_locally, through) refl) ∙ p)
  fetched-looks g h key (err non_numeric) random now a through p =
      failed g h non_numeric a (sym (rw (get_locally, through) refl) ∙ p)
  fetched-looks g h key (err (server_error x y)) random now a through p =
      failed g h (server_error x y) a (sym (rw (get_locally, through) refl) ∙ p)
  fetched-looks g h key (err (other x)) random now a through p =
      failed g h (other x) a (sym (rw (get_locally, through) refl) ∙ p)

  get_locally-looks :
      (g h : Group C S) (key : Key) (fetched : Answer Bytes) (random now : ℕ) (a : Answer ByteView)
      → get_locally g key fetched random now ≡ some (h, a)
      → looks h ≡ looks g
  unfolding count inc_filter_misses
  get_locally-looks g h key fetched random now a p = elim (Bool-cases (rejects g.filter key)) [
    | inl r ↦
        ap (λ d. looks d.0)
          (sym (some-injective _ _ (sym (rejected_load g key fetched random now r) ∙ p)))
    | inr r ↦ fetched-looks g h key fetched random now a r p
  ]

  fallback :
      (g h : Group C S) (key : Key) (fetched : Answer Bytes) (random now : ℕ)
      (b : Option (Answer ByteView)) (a : Answer ByteView)
      → (elim b [ some a ↦ some (g, a) | none ↦ get_locally g key fetched random now ])
        ≡ some (h, a)
      → looks h ≡ looks g
  fallback g h key fetched random now none a p = get_locally-looks g h key fetched random now a p
  fallback g h key fetched random now (some b) a p =
      ap (λ d. looks d.0) (sym (some-injective _ _ p))

  -- A load counts neither Gets nor hits nor misses.
  pub load_fn-looks :
      (g h : Group C S) (key : Key) (peer : Picked (Answer Bytes)) (fetched : Answer Bytes)
      (random now : ℕ) (a : Answer ByteView)
      → load_fn g key peer fetched random now ≡ some (h, a)
      → looks h ≡ looks g
  unfolding load_fn
  load_fn-looks g h key peer fetched random now a p =
      let (tried, q, r) = bind-some (load_from_peer g key peer random now) _ (h, a) p in
      fallback tried.0 h key fetched random now tried.1 a r
      ∙ load_from_peer-looks g tried.0 key peer random now tried.1 q
