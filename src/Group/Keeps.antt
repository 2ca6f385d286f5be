-- ===== src/Group/Keeps.antt =====
-- What the writes of a group to its stale cache leave alone.
use cachecore.Base.{
  ℕ, ◌≡◌, sym, ap, ◌∙◌, Bool, true, false, not, ◌&&◌, Option, none, some, some-injective, ◌>>=◌,
  if◌then◌else◌, bind-some,
}
use cachecore.Filter.{FilterOps}
use cachecore.Go.Bytes.{Key}
use cachecore.Go.Int64
use cachecore.Go.Int64.{Int64, slt}
use cachecore.Group.{CacheOps, Group, record_stale}
use cachecore.View.{ByteView, is_not_found}

-- For a part of a group that does not hang on its stale cache.
module _ {C S X : Type 0} ⦃c : CacheOps C⦄ ⦃o : FilterOps S⦄ (p : Group C S → X)
    (same : (g : Group C S) (s : C) → p (record g { stale_cache = some s }) ≡ p g) where
  stale_case :
      (g h : Group C S) (b : Bool) (r : Option C)
      → (if b then (r >>= (λ s. some (record g { stale_cache = some s }))) else some g) ≡ some h
      → p h ≡ p g
  stale_case g h false r e = ap p (sym (some-injective _ _ e))
  stale_case g h true r e =
      let f1 : C → Option (Group C S) = λ s. some (record g { stale_cache = some s }) in
      let (s, _, q) = bind-some r f1 h e in ap p (sym (some-injective _ _ q)) ∙ same g s

  stale_option :
      (g h : Group C S) (stale : Option C) (b : Bool) (r : C → Option C)
      → (elim stale [
        | none ↦ some g
        | some t ↦ if b then (r t >>= (λ s. some (record g { stale_cache = some s }))) else some g
      ])
        ≡ some h
      → p h ≡ p g
  stale_option g h none b r e = ap p (sym (some-injective _ _ e))
  stale_option g h (some t) b r e = stale_case g h b (r t) e

  pub record_stale-keeps :
      (g h : Group C S) (key : Key) (value : ByteView) (ttl : Int64) (now : ℕ)
      → record_stale g key value ttl now ≡ some h
      → p h ≡ p g
  unfolding record_stale
  record_stale-keeps g h key value ttl now e =
      stale_option g h g.stale_cache (slt 0 g.stale_ttl && slt 0 ttl && not (is_not_found value))
        (λ t. c.add_with_ttl t key value (Int64.add ttl g.stale_ttl) now) e
