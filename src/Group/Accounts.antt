-- ===== src/Group/Accounts.antt =====
-- What the counters of a group count of its Gets.
use cachecore.Base.{
  ℕ, ◌≡◌, refl, sym, ap, ◌∙◌, ◌⊎◌, inl, inr, true, false, Option, none, some, some-injective, ◌==◌,
  ◌>>=◌, if◌then◌else◌, bind-some, length,
}
use cachecore.Errors.{not_found, Answer, ok, err}
use cachecore.Filter.{FilterOps}
use cachecore.Go.Bytes.{Bytes, Key}
use cachecore.Go.Int64
use cachecore.Go.Int64.{Int64, slt}
use cachecore.Group.{CacheOps, Group, Course, timer_fires, count, load, get}
use cachecore.Http.Pool.{Picked}
use cachecore.Metrics.{inc_group_gets, inc_cache_hits, inc_cache_misses}
use cachecore.View.{ByteView, is_not_found}
use cachecore.Group.Looks.{looks}
use cachecore.Group.Waits.{load-LoadCounts}

module _ {C S : Type 0} ⦃c : CacheOps C⦄ ⦃o : FilterOps S⦄ where
  -- What is counted: the Get, and a hit, or a miss, or a miss and the hit of a wait that timed out.
  abbrev pub CountsLook : Group C S → Group C S → Course → Type 0
  CountsLook g h course =
      (looks h
        ≡ (Int64.add g.stats.group_gets 1, Int64.add g.stats.cache_hits 1, g.stats.cache_misses))
      ⊎ (looks h
          ≡ (Int64.add g.stats.group_gets 1, g.stats.cache_hits, Int64.add g.stats.cache_misses 1))
      ⊎ ((slt 0 g.singleflight_wait_ttl ≡ true)
          × ((at : ℕ) × (course ≡ timer_fires at))
          × (looks h ≡ (
            Int64.add g.stats.group_gets 1,
            Int64.add g.stats.cache_hits 1,
            Int64.add g.stats.cache_misses 1,
          )))

  looked :
      (g l h : Group C S) (key : Key) (found : Option ByteView) (course : Course)
      (peer : Picked (Answer Bytes)) (fetched : Answer Bytes) (random now : ℕ) (a : Answer ByteView)
      → looks l ≡ (Int64.add g.stats.group_gets 1, g.stats.cache_hits, g.stats.cache_misses)
      → l.singleflight_wait_ttl ≡ g.singleflight_wait_ttl
      → Path
          (Option (Group C S × Answer ByteView))
          (elim found [
            | some v ↦ some (count inc_cache_hits l, if is_not_found v then err not_found else ok v)
            | none ↦ load (count inc_cache_misses l) key course peer fetched random now
          ])
          (some (h, a))
      → CountsLook g h course
  unfolding count inc_cache_hits inc_cache_misses
  looked g l h key none course peer fetched random now a e w p =
      elim (load-LoadCounts (count inc_cache_misses l) h key course peer fetched random now a p) [
        | inl q ↦ inr (inl (q ∙ ap (λ t. (t.0, t.1, Int64.add t.2 1)) e))
        | inr (u, at, q) ↦ inr (
            inr
              (ap (slt 0) (sym w) ∙ u, at, q ∙ ap (λ t. (t.0, Int64.add t.1 1, Int64.add t.2 1)) e))
      ]
  looked g l h key (some v) course peer fetched random now a e w p =
      inl
        (ap (λ d. looks d.0) (sym (some-injective _ _ p)) ∙ ap (λ t. (t.0, Int64.add t.1 1, t.2)) e)

  -- A Get with a key that returns counts itself, and either one hit or one miss, on every path of
  -- its load, with one exception: where there is a time to wait for a load and the wait times out,
  -- a Get that missed may count a hit on top, of the caches that it then turns to.
  pub get-CountsLook :
      (g h : Group C S) (key : Key) (course : Course) (peer : Picked (Answer Bytes))
      (fetched : Answer Bytes) (random now : ℕ) (a : Answer ByteView)
      → (length key == 0) ≡ false
      → get g key course peer fetched random now ≡ some (h, a)
      → CountsLook g h course
  unfolding get count inc_group_gets
  get-CountsLook g h key course peer fetched random now a long p =
      let rest : (c.get g.main_cache key now >>= (λ hit.
        let l : Group C S = record (count inc_group_gets g) { main_cache = hit.0 } in
        elim hit.1 [
          | some v ↦ some (count inc_cache_hits l, if is_not_found v then err not_found else ok v)
          | none ↦ load (count inc_cache_misses l) key course peer fetched random now
        ]))
          ≡ some (h, a) =
        sym (rw (get, long) refl) ∙ p in
      let (hit, q, r) = bind-some (c.get g.main_cache key now) _ (h, a) rest in
      looked g (record (count inc_group_gets g) { main_cache = hit.0 }) h key hit.1 course peer
        fetched random now a refl refl r
