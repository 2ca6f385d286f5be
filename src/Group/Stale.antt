-- ===== src/Group/Stale.antt =====
-- What a caller gets whose wait for a load timed out, after an earlier load of its key.
use cachecore.Base.{
  ℕ, ◌≡◌, refl, sym, ap, ◌∙◌, Bool, true, false, ◌&&◌, none, some, some-injective, if◌then◌else◌,
  bind-some,
}
use cachecore.Errors.{wait_timeout, Answer, ok, err}
use cachecore.Expiry.{passed, deadline}
use cachecore.Filter.{FilterOps, rejects}
use cachecore.Go.Bytes.{Bytes, Key}
use cachecore.Go.Int64
use cachecore.Go.Int64.{Int64, slt}
use cachecore.Group.{
  CacheOps, Group, next_ttl, store_value, record_stale, add_to_filter, count, keep_value,
  get_locally, get_stale, degrade_after_wait_timeout, wait_for_load, timed_out,
}
use cachecore.Group.Loads.{fetched_load}
use cachecore.Group.Rereads.{ReadsBack, keep_value-main}
use cachecore.Metrics.{inc_local_loads, inc_cache_hits}
use cachecore.View.{ByteView, view, is_not_found}

-- How long a group keeps a value.
abbrev pub lifetime : {C S : Type 0} → Group C S → ℕ → Int64
lifetime g random = next_ttl g.cache_ttl g.cache_ttl_jitter random

module _ {C S : Type 0} ⦃c : CacheOps C⦄ ⦃o : FilterOps S⦄ where
  -- What is kept for a while stands in the stale cache too, for longer.
  keep_value-stale :
      (g h : Group C S) (key : Key) (value : ByteView) (random now : ℕ) (stale m t : C)
      → g.stale_cache ≡ some stale
      → slt 0 g.stale_ttl ≡ true
      → slt 0 (lifetime g random) ≡ true
      → is_not_found value ≡ false
      → c.add_with_ttl g.main_cache key value (lifetime g random) now ≡ some m
      → c.add_with_ttl stale key value (Int64.add (lifetime g random) g.stale_ttl) now ≡ some t
      → keep_value g key value random now ≡ some h
      → (h.stale_cache ≡ some t) × (h.stale_ttl ≡ g.stale_ttl)
  unfolding keep_value store_value record_stale add_to_filter
  keep_value-stale g h key value random now stale m t has on pos found e e2 k =
      let kept : some (add_to_filter (record g { main_cache = m; stale_cache = some t }) key)
          ≡ some h =
        sym (rw (keep_value, store_value, pos, e, record_stale, has, on, found, e2, pos) refl)
        ∙ k in
      let r = some-injective _ _ kept in
      (ap (λ g. g.stale_cache) (sym r), ap (λ g. g.stale_ttl) (sym r))

  -- The answer after the timeout, with one hit unless it is an error.
  abbrev pub Degrades : Group C S → Key → ByteView → ℕ → Bool → Type 0
  Degrades h key value later gone =
      (after : Group C S) × (wait_for_load h key timed_out later
        ≡ some (after, if gone then err wait_timeout else ok value))
      × (after.stats.cache_hits
          ≡ (if gone then h.stats.cache_hits else Int64.add h.stats.cache_hits 1))

  degrade_cases :
      (h : Group C S) (key : Key) (value : ByteView) (later : ℕ) (t m' t' : C) (b1 b2 : Bool)
      → is_not_found value ≡ false
      → h.stale_cache ≡ some t
      → slt 0 h.stale_ttl ≡ true
      → c.get h.main_cache key later ≡ some (m', if b1 then none else some value)
      → c.get t key later ≡ some (t', if b2 then none else some value)
      → Degrades h key value later (b1 && b2)
  unfolding wait_for_load degrade_after_wait_timeout get_stale count inc_cache_hits
  degrade_cases h key value later t m' t' false b2 found has on e1 e2 = (
    count inc_cache_hits (record h { main_cache = m' }),
    rw (wait_for_load, degrade_after_wait_timeout, e1, found) refl,
    refl,
  )
  degrade_cases h key value later t m' t' true false found has on e1 e2 = (
    count inc_cache_hits (record h { main_cache = m'; stale_cache = some t' }),
    rw (wait_for_load, degrade_after_wait_timeout, e1, get_stale, has, on, e2, found) refl,
    refl,
  )
  degrade_cases h key value later t m' t' true true found has on e1 e2 = (
    record h { main_cache = m'; stale_cache = some t' },
    rw (wait_for_load, degrade_after_wait_timeout, e1, get_stale, has, on, e2) refl,
    refl,
  )

  -- After a local load of bytes that the group keeps for a while, in an active and a stale cache that
  -- read back what they have room for, a caller whose wait for a later load times out gets those bytes
  -- and counts a hit, until both times have passed, the lifetime and the longer one of the stale
  -- cache; then it gets errWaitTimeout and counts none.
  pub get_locally-Degrades :
      (k : ReadsBack C) (g h : Group C S) (key : Key) (bytes : Bytes) (random now : ℕ)
      (a : Answer ByteView) (stale : C) (later : ℕ)
      → rejects g.filter key ≡ false
      → get_locally g key (ok bytes) random now ≡ some (h, a)
      → g.stale_cache ≡ some stale
      → slt 0 g.stale_ttl ≡ true
      → slt 0 (lifetime g random) ≡ true
      → k.HasRoom g.main_cache key (view bytes)
      → k.HasRoom stale key (view bytes)
      → Degrades h key (view bytes) later (
          passed (deadline (lifetime g random) now) later
          && passed (deadline (Int64.add (lifetime g random) g.stale_ttl) now) later)
  unfolding count is_not_found
  get_locally-Degrades k g h key bytes random now a stale later through load has on pos room room' =
      let ttl = lifetime g random in
      let value = view bytes in
      let counted = count inc_local_loads g in
      let (g1, p, q) =
        bind-some (keep_value counted key value random now) _ (h, a)
          (sym (fetched_load g key bytes random now through) ∙ load) in
      let r = ap (λ d. d.0) (some-injective _ _ q) in
      let (m, m', e1, e2) = k.get-add_with_ttl g.main_cache key value ttl now later room in
      let (t, t', f1, f2) =
        k.get-add_with_ttl stale key value (Int64.add ttl g.stale_ttl) now later room' in
      let (in_stale, same) =
        keep_value-stale counted g1 key value random now stale m t has on pos refl e1 f1 p in
      degrade_cases h key value later t m' t' (passed (deadline ttl now) later)
        (passed (deadline (Int64.add ttl g.stale_ttl) now) later) refl
        (ap (λ g. g.stale_cache) (sym r) ∙ in_stale)
        (ap (λ g. slt 0 g.stale_ttl) (sym r) ∙ ap (slt 0) same ∙ on)
        (ap (λ g. c.get g.main_cache key later) (sym r)
          ∙ ap (λ s. c.get s key later) (keep_value-main counted g1 key value random now m pos e1 p)
          ∙ e2)
        f2
