-- ===== src/Group/Rereads.antt =====
-- What a Get finds after a local load of its key.
use cachecore.Base.{
  ℕ, ◌≡◌, refl, sym, ap, ◌∙◌, subst, inl, inr, Bool, true, false, [], Option, none, some,
  some-injective, none-ne-some, ◌==◌, Bool-cases, if◌then◌else◌, bind-some, length,
}
use cachecore.Errors.{
  key_required, not_found, filter_not_found, wait_timeout, non_numeric, server_error, other, Answer,
  ok, err,
}
use cachecore.Expiry.{passed, deadline}
use cachecore.Filter.{FilterOps, rejects}
use cachecore.Go.Bytes.{Bytes, Key}
use cachecore.Go.Int64
use cachecore.Go.Int64.{Int64, slt}
use cachecore.Group.{
  CacheOps, Group, Course, next_ttl, stamp_active_value, store_value, record_stale, add_to_filter,
  count, keep_value, cache_negative, get_locally, get,
}
use cachecore.Group.Keeps.{record_stale-keeps}
use cachecore.Group.Loads.{fetched_load, missing_load}
use cachecore.Http.Pool.{Picked}
use cachecore.Metrics.{inc_local_loads, inc_cache_hits, inc_group_gets}
use cachecore.View.{ByteView, view, with_not_found, is_not_found}

-- A cache that reads back what it has room for, until the time of the entry has passed, and then
-- nothing.
pub record ReadsBack (C : Type 0) ⦃c : CacheOps C⦄ : Type 1 where
  pub HasRoom : C → Key → ByteView → Type 0
  pub get-add_with_ttl :
      (s : C) (key : Key) (value : ByteView) (ttl : Int64) (now at : ℕ)
      → HasRoom s key value
      → (s1 s2 : C) × (c.add_with_ttl s key value ttl now ≡ some s1)
        × (c.get s1 key at ≡ some (s2, if passed (deadline ttl now) at then none else some value))

-- What a group keeps of an answer of its getter, and for how long.
unfoldable pub kept_as : {C S : Type 0} → Group C S → Answer Bytes → ℕ → Option (ByteView × Int64)
unfolding next_ttl with_not_found
kept_as g (ok bytes) random = some (view bytes, next_ttl g.cache_ttl g.cache_ttl_jitter random)
kept_as g (err not_found) random =
    if g.negative_cache_enabled then some (with_not_found (view []), g.negative_ttl) else none
kept_as g (err _) random = none

-- The answer that a cached value makes.
abbrev answer_of : ByteView → Answer ByteView
answer_of value = if is_not_found value then err not_found else ok value

module _ {C S : Type 0} ⦃c : CacheOps C⦄ ⦃o : FilterOps S⦄ where
  pub keep_value-main :
      (g h : Group C S) (key : Key) (value : ByteView) (random now : ℕ) (s : C)
      → slt 0 (next_ttl g.cache_ttl g.cache_ttl_jitter random) ≡ true
      → c.add_with_ttl g.main_cache key value (next_ttl g.cache_ttl g.cache_ttl_jitter random) now
        ≡ some s
      → keep_value g key value random now ≡ some h
      → h.main_cache ≡ s
  unfolding keep_value store_value add_to_filter
  keep_value-main g h key value random now s pos e k =
      let ttl = next_ttl g.cache_ttl g.cache_ttl_jitter random in
      let (stored, p, q) = bind-some (store_value g key value ttl now) _ h k in
      let (staled, p2, q2) = bind-some (record_stale stored key value ttl now) _ h q in
      let first : some (record g { main_cache = s }) ≡ some stored =
        sym (rw (store_value, pos, e) refl) ∙ p in
      ap (λ g. g.main_cache) (sym (some-injective _ _ q2))
      ∙ record_stale-keeps (λ g. g.main_cache) (λ g s. refl) stored staled key value ttl now p2
      ∙ ap (λ g. g.main_cache) (sym (some-injective _ _ first))

  cache_negative-main :
      (g h : Group C S) (key : Key) (now : ℕ) (s : C)
      → g.negative_cache_enabled ≡ true
      → slt 0 g.negative_ttl ≡ true
      → c.add_with_ttl g.main_cache key (with_not_found (view [])) g.negative_ttl now ≡ some s
      → cache_negative g key now ≡ some h
      → h.main_cache ≡ s
  unfolding cache_negative stamp_active_value
  cache_negative-main g h key now s on pos e k =
      let first : some (record g { main_cache = s }) ≡ some h =
        sym (rw (cache_negative, on, pos, e) refl) ∙ k in
      ap (λ g. g.main_cache) (sym (some-injective _ _ first))

  -- A hit answers from the cache.
  get-hit :
      (g : Group C S) (key : Key) (course : Course) (peer : Picked (Answer Bytes))
      (fetched : Answer Bytes) (random now : ℕ) (s : C) (value : ByteView)
      → (length key == 0) ≡ false
      → c.get g.main_cache key now ≡ some (s, some value)
      → get g key course peer fetched random now
        ≡ some (
          count inc_cache_hits (record (count inc_group_gets g) { main_cache = s }),
          if is_not_found value then err not_found else ok value,
        )
  unfolding get
  get-hit g key course peer fetched random now s value long e = rw (get, long, e) refl

  -- A Get that ends as `reread` says.
  abbrev pub Rereads :
      Group C S
      → Key
      → ℕ
      → Answer ByteView
      → Course
      → Picked (Answer Bytes)
      → Answer Bytes
      → ℕ
      → Type 0
  Rereads g key later a course peer fetched random =
      (after : Group C S) × (get g key course peer fetched random later ≡ some (after, a))
      × (after.stats.cache_hits ≡ Int64.add g.stats.cache_hits 1)

  reread_hit :
      (k : ReadsBack C) (g h : Group C S) (key : Key) (value : ByteView) (ttl : Int64)
      (now later : ℕ) (a : Answer ByteView)
      → (length key == 0) ≡ false
      → passed (deadline ttl now) later ≡ false
      → k.HasRoom g.main_cache key value
      → ((s : C) → c.add_with_ttl g.main_cache key value ttl now ≡ some s → h.main_cache ≡ s)
      → answer_of value ≡ a
      → (course : Course) (peer : Picked (Answer Bytes)) (fetched : Answer Bytes) (random : ℕ)
      → Rereads h key later a course peer fetched random
  unfolding count inc_cache_hits inc_group_gets
  reread_hit k g h key value ttl now later a long live room main same course peer fetched random =
      let (s1, s2, e1, e2) = k.get-add_with_ttl g.main_cache key value ttl now later room in
      let hit : c.get h.main_cache key later ≡ some (s2, some value) =
        ap (λ s. c.get s key later) (main s1 e1)
        ∙ e2
        ∙ ap (λ b. some (s2, if b then none else some value)) live in
      (
        _,
        get-hit h key course peer fetched random later s2 value long hit
            ∙ ap
                (λ a.
                  some
                    (count inc_cache_hits (record (count inc_group_gets h) { main_cache = s2 }), a))
                same,
        refl,
      )

  -- What the cache keeps of a local load that the filter lets through answers the Gets of the key that
  -- follow, until its time has passed, in a cache that reads back what it has room for: they answer as
  -- the load did, a value or ErrNotFound, whatever their context, the peers, and the getter would say,
  -- and count a hit.
  pub get_locally-reread :
      (k : ReadsBack C) (g h : Group C S) (key : Key) (loaded : Answer Bytes) (random now : ℕ)
      (a : Answer ByteView) (value : ByteView) (ttl : Int64) (later : ℕ)
      → (length key == 0) ≡ false
      → rejects g.filter key ≡ false
      → get_locally g key loaded random now ≡ some (h, a)
      → kept_as g loaded random ≡ some (value, ttl)
      → slt 0 ttl ≡ true
      → k.HasRoom g.main_cache key value
      → passed (deadline ttl now) later ≡ false
      → (course : Course) (peer : Picked (Answer Bytes)) (fetched : Answer Bytes) (random' : ℕ)
      → Rereads h key later a course peer fetched random'
  unfolding kept_as count is_not_found with_not_found
  get_locally-reread k g h key (ok bytes) random now a value ttl later long through load kept pos
        room live =
      let t = some-injective _ _ kept in
      let (g1, p, q) =
        bind-some (keep_value (count inc_local_loads g) key (view bytes) random now) _ (h, a)
          (sym (fetched_load g key bytes random now through) ∙ load) in
      let r = some-injective _ _ q in
      reread_hit k g h key (view bytes) (next_ttl g.cache_ttl g.cache_ttl_jitter random) now later a
        long (subst (λ vt. passed (deadline vt.1 now) later ≡ false) (sym t) live)
        (subst (λ vt. k.HasRoom g.main_cache key vt.0) (sym t) room)
        (λ s e.
          ap (λ d. d.0.main_cache) (sym r)
          ∙ keep_value-main (count inc_local_loads g) g1 key (view bytes) random now s
              (subst (λ vt. slt 0 vt.1 ≡ true) (sym t) pos) e p)
        (ap (λ d. d.1) r)
  get_locally-reread k g h key (err not_found) random now a value ttl later long through load kept
        pos room live =
      let negative : Bool → Option (ByteView × Int64) =
        λ b. if b then some (with_not_found (view []), g.negative_ttl) else none in
      elim (Bool-cases g.negative_cache_enabled) [
        | inr off ↦ absurd (none-ne-some (value, ttl) (sym (ap negative off) ∙ kept))
        | inl on ↦
            let t = some-injective _ _ (sym (ap negative on) ∙ kept) in
            let (g1, p, q) =
              bind-some (cache_negative g key now) _ (h, a)
                (sym (missing_load g key random now through) ∙ load) in
            let r = some-injective _ _ q in
            reread_hit k g h key (with_not_found (view [])) g.negative_ttl now later a long
              (subst (λ vt. passed (deadline vt.1 now) later ≡ false) (sym t) live)
              (subst (λ vt. k.HasRoom g.main_cache key vt.0) (sym t) room)
              (λ s e.
                ap (λ d. d.0.main_cache) (sym r)
                ∙ cache_negative-main g g1 key now s on
                    (subst (λ vt. slt 0 vt.1 ≡ true) (sym t) pos) e p)
              (ap (λ d. d.1) r)
      ]
  get_locally-reread k g h key (err key_required) random now a value ttl later long through load
        kept pos room live =
      absurd (none-ne-some _ kept)
  get_locally-reread k g h key (err (filter_not_found x)) random now a value ttl later long through
        load kept pos room live =
      absurd (none-ne-some _ kept)
  get_locally-reread k g h key (err wait_timeout) random now a value ttl later long through load
        kept pos room live =
      absurd (none-ne-some _ kept)
  get_locally-reread k g h key (err non_numeric) random now a value ttl later long through load kept
        pos room live =
      absurd (none-ne-some _ kept)
  get_locally-reread k g h key (err (server_error x y)) random now a value ttl later long through
        load kept pos room live =
      absurd (none-ne-some _ kept)
  get_locally-reread k g h key (err (other x)) random now a value ttl later long through load kept
        pos room live =
      absurd (none-ne-some _ kept)
