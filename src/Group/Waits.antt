-- ===== src/Group/Waits.antt =====
-- What a wait for a load counts.
use cachecore.Base.{
  ℕ, ◌≡◌, refl, sym, ap, ◌∙◌, ◌⊎◌, inl, inr, Bool, true, false, Option, none, some, some-injective,
  ◌>>=◌, if◌then◌else◌, bind-some, is_some,
}
use cachecore.Errors.{not_found, wait_timeout, Answer, ok, err}
use cachecore.Filter.{FilterOps}
use cachecore.Go.Bytes.{Bytes, Key}
use cachecore.Go.Int64
use cachecore.Go.Int64.{slt}
use cachecore.Group.{
  CacheOps, Group, Course, ended, in_time, context_ends, timer_fires, received, count, load_fn,
  load, get_stale, degrade_after_wait_timeout, wait_for_load,
}
use cachecore.Group.Looks.{looks, load_fn-looks, failed}
use cachecore.Http.Pool.{Picked}
use cachecore.Metrics.{inc_cache_hits}
use cachecore.View.{ByteView, is_not_found}

module _ {C S : Type 0} ⦃c : CacheOps C⦄ ⦃o : FilterOps S⦄ where
  -- What a timeout counts: nothing, or a hit.
  abbrev pub MayHit : Group C S → Group C S → Type 0
  MayHit g h =
      (looks h ≡ looks g)
      ⊎ (looks h ≡ (g.stats.group_gets, Int64.add g.stats.cache_hits 1, g.stats.cache_misses))

  answered :
      (g h : Group C S) (x y : Option ByteView)
      → Path (Option (Group C S × Option ByteView)) (some (g, x)) (some (h, y))
      → looks h ≡ looks g
  answered g h x y p = ap (λ d. looks d.0) (sym (some-injective _ _ p))

  abbrev stale_answer : Group C S → C × Option ByteView → Option (Group C S × Option ByteView)
  stale_answer g hit =
      let l : Group C S = record g { stale_cache = some hit.0 } in
      some (if is_some hit.1 then count inc_cache_hits l else l, hit.1)

  stale_end :
      (g h : Group C S) (s : C) (hit found : Option ByteView)
      → stale_answer g (s, hit) ≡ some (h, found)
      → MayHit g h
  unfolding count inc_cache_hits
  stale_end g h s none found p = inl (answered _ h none found p)
  stale_end g h s (some v) found p = inr (answered _ h (some v) found p)

  stale_case :
      (g h : Group C S) (key : Key) (now : ℕ) (stale : Option C) (b : Bool)
      (found : Option ByteView)
      → Path
          (Option (Group C S × Option ByteView))
          (elim stale [
            | none ↦ some (g, none)
            | some t ↦ if b then (c.get t key now >>= stale_answer g) else some (g, none)
          ])
          (some (h, found))
      → MayHit g h
  stale_case g h key now none b found p = inl (answered g h none found p)
  stale_case g h key now (some t) false found p = inl (answered g h none found p)
  stale_case g h key now (some t) true found p =
      let (hit, q, r) = bind-some (c.get t key now) _ (h, found) p in
      stale_end g h hit.0 hit.1 found r

  get_stale-looks :
      (g h : Group C S) (key : Key) (now : ℕ) (found : Option ByteView)
      → get_stale g key now ≡ some (h, found)
      → MayHit g h
  unfolding get_stale
  get_stale-looks g h key now found p =
      stale_case g h key now g.stale_cache (slt 0 g.stale_ttl) found p

  looked_again :
      (l h : Group C S) (key : Key) (now : ℕ) (found : Option ByteView) (a : Answer ByteView)
      → Path
          (Option (Group C S × Answer ByteView))
          (elim found [
            | some v ↦ some (count inc_cache_hits l, if is_not_found v then err not_found else ok v)
            | none ↦ get_stale l key now >>= (λ stale. some (
              stale.0,
              elim stale.1 [
                | some v ↦ if is_not_found v then err not_found else ok v
                | none ↦ err wait_timeout
              ],
            ))
          ])
          (some (h, a))
      → MayHit l h
  unfolding count inc_cache_hits
  looked_again l h key now (some v) a p = inr (ap (λ d. looks d.0) (sym (some-injective _ _ p)))
  looked_again l h key now none a p =
      let (stale, q, r) = bind-some (get_stale l key now) _ (h, a) p in
      let same = ap (λ d. looks d.0) (sym (some-injective _ _ r)) in
      elim (get_stale-looks l stale.0 key now stale.1 q) [
        | inl e ↦ inl (same ∙ e)
        | inr e ↦ inr (same ∙ e)
      ]

  degrade-looks :
      (g h : Group C S) (key : Key) (now : ℕ) (a : Answer ByteView)
      → degrade_after_wait_timeout g key now ≡ some (h, a)
      → MayHit g h
  unfolding degrade_after_wait_timeout
  degrade-looks g h key now a p =
      let (hit, q, r) = bind-some (c.get g.main_cache key now) _ (h, a) p in
      looked_again (record g { main_cache = hit.0 }) h key now hit.1 a r

  -- A load counts neither hits nor misses, but a hit where its wait times out and a cache has the key.
  abbrev pub LoadCounts : Group C S → Group C S → Course → Type 0
  LoadCounts g h course =
      (looks h ≡ looks g)
      ⊎ ((slt 0 g.singleflight_wait_ttl ≡ true)
          × ((at : ℕ) × (course ≡ timer_fires at))
          × (looks h ≡ (g.stats.group_gets, Int64.add g.stats.cache_hits 1, g.stats.cache_misses)))

  received_end :
      (g h : Group C S) (key : Key) (now : ℕ) (x a : Answer ByteView)
      → wait_for_load g key (received x) now ≡ some (h, a)
      → looks h ≡ looks g
  unfolding wait_for_load
  received_end g h key now x a p = ap (λ d. looks d.0) (sym (some-injective _ _ p))

  load_case :
      (g h : Group C S) (key : Key) (course : Course) (peer : Picked (Answer Bytes))
      (fetched : Answer Bytes) (random now : ℕ) (a : Answer ByteView) (b : Bool)
      → slt 0 g.singleflight_wait_ttl ≡ b
      → load g key course peer fetched random now ≡ some (h, a)
      → LoadCounts g h course
  unfolding load wait_for_load
  load_case g h key (ended e) peer fetched random now a b w p = inl (failed g h e a p)
  load_case g h key in_time peer fetched random now a false w p =
      inl (load_fn-looks g h key peer fetched random now a (sym (rw (load, w) refl) ∙ p))
  load_case g h key in_time peer fetched random now a true w p =
      let (done, q, r) =
        bind-some (load_fn g key peer fetched random now)
          (λ done. wait_for_load done.0 key (received done.1) now) (h, a)
          (sym (rw (load, w) refl) ∙ p) in
      inl (
        received_end done.0 h key now done.1 a r
        ∙ load_fn-looks g done.0 key peer fetched random now done.1 q)
  load_case g h key (context_ends e) peer fetched random now a false w p =
      inl (load_fn-looks g h key peer fetched random now a (sym (rw (load, w) refl) ∙ p))
  load_case g h key (context_ends e) peer fetched random now a true w p =
      inl (failed g h e a (sym (rw (load, w, wait_for_load) refl) ∙ p))
  load_case g h key (timer_fires at) peer fetched random now a false w p =
      inl (load_fn-looks g h key peer fetched random now a (sym (rw (load, w) refl) ∙ p))
  load_case g h key (timer_fires at) peer fetched random now a true w p =
      elim (degrade-looks g h key at a (sym (rw (load, w, wait_for_load) refl) ∙ p)) [
        | inl e ↦ inl e
        | inr e ↦ inr (w, (at, refl), e)
      ]

  pub load-LoadCounts :
      (g h : Group C S) (key : Key) (course : Course) (peer : Picked (Answer Bytes))
      (fetched : Answer Bytes) (random now : ℕ) (a : Answer ByteView)
      → load g key course peer fetched random now ≡ some (h, a)
      → LoadCounts g h course
  load-LoadCounts g h key course peer fetched random now a p =
      load_case g h key course peer fetched random now a _ refl p
