-- ===== src/Http/Broadcast.antt =====
-- Whom `broadcastInvalidate` asks, and when it reports no error.
use cachecore.Base.{
  ◌≡◌, ◌≢◌, refl, sym, ap, ◌∙◌, subst, inl, inr, if_pos, if_neg, not, ◌&&◌, List, [], ◌∷◌, Option,
  none, some, is_some, some-injective, if◌then◌else◌, All, All-map, Any, Option-cases, none-ne-some,
}
use cachecore.Errors.{Error}
use cachecore.Go.Bytes.{Bytes, Key, equal, equal-yes, equal-no, key_dec}
use cachecore.Go.Map.{Map, lookup, insert}
use cachecore.Http.Choice.{getter_of, lookup-set_loop}
use cachecore.Http.Client
use cachecore.Http.Client.{invalidate_loop, other_getters, broadcast_invalidate}
use cachecore.Http.Messages.{Request, ProtoOps, Exchange}
use cachecore.Ring.Nodes.{members}
use cachecore.Http.Pool.{HttpGetter, default_base_path, new_http_pool, set_loop, set}

-- What stands in a map after an assignment has the property, if it had it before.
insert-All :
    {V : Type 0} (P : Key × V → Type 0) (k : Key) (v : V) (m : Map V)
    → P (k, v)
    → All P m
    → All P (insert k v m)
unfolding insert
insert-All P k v [] p q = (p, tt)
insert-All P k v ((j, w) ∷ m) p q = elim (key_dec j k) [
  | yes e ↦ subst (All P) (sym (if_pos (key_dec j k) e _ _)) (p, q.1)
  | no n ↦ subst (All P) (sym (if_neg (key_dec j k) n _ _)) (q.0, insert-All P k v m p q.1)
]

set_loop-All :
    (P : Key × HttpGetter → Type 0) (base_path : Bytes) (peers : List Key) (m : Map HttpGetter)
    → All (λ x. P (x, getter_of base_path x)) peers
    → All P m
    → All P (set_loop base_path peers m)
unfolding set_loop
set_loop-All P base_path [] m p q = q
set_loop-All P base_path (peer ∷ peers) m p q =
    set_loop-All P base_path peers (insert peer (getter_of base_path peer) m) p.1
      (insert-All P peer (getter_of base_path peer) m p.0 q)

-- The getters of all addresses but the own one, and no other.
other_getters-All :
    (P : Key × HttpGetter → Type 0) (self : Key) (m : Map HttpGetter)
    → All P m
    → All (λ h. (x : Key) × (x ≢ self) × P (x, h)) (other_getters self m)
unfolding other_getters equal
other_getters-All P self [] p = tt
other_getters-All P self ((x, h) ∷ m) p = elim (key_dec x self) [
  | yes e ↦ rw (equal-yes x self e) (other_getters-All P self m p.1)
  | no n ↦ rw (equal-no x self n) ((x, n, p.0), other_getters-All P self m p.1)
]

other_getters-lookup :
    (self x : Key) (h : HttpGetter) (m : Map HttpGetter)
    → lookup x m ≡ some h
    → x ≢ self
    → Any (λ i. i ≡ h) (other_getters self m)
unfolding other_getters lookup equal
other_getters-lookup self x h [] e p = absurd (none-ne-some h e)
other_getters-lookup self x h ((j, w) ∷ m) e p = elim (key_dec j self) [
  | yes s ↦ rw (equal-yes j self s) (
      other_getters-lookup self x h m
        (sym (if_neg (key_dec j x) (λ q. p (sym q ∙ s)) (some w) (lookup x m)) ∙ e) p)
  | no s ↦ rw (equal-no j self s) (elim (key_dec j x) [
    | yes q ↦ inl (some-injective _ _ (sym (if_pos (key_dec j x) q (some w) (lookup x m)) ∙ e))
    | no q ↦
        inr (
          other_getters-lookup self x h m (sym (if_neg (key_dec j x) q (some w) (lookup x m)) ∙ e)
            p)
  ])
]

-- An address of the list with its getter.
abbrev pub IsGetter : List Key → Key × HttpGetter → Type 0
IsGetter peers (x, h) = Any (λ y. y ≡ x) peers × (h ≡ getter_of default_base_path x)

module _ {W : Type 0} ⦃p : ProtoOps W⦄ (send : Bytes → W → Exchange W) where
  -- Every getter is asked, whatever fails before.
  invalidate_loop-asks :
      (getters : List HttpGetter) (req : Request) (first : Option Error)
      → (invalidate_loop send getters req first).0 ≡ getters
  unfolding invalidate_loop
  invalidate_loop-asks [] req first = refl
  invalidate_loop-asks (h ∷ getters) req first =
      ap (λ l. h ∷ l) (invalidate_loop-asks getters req _)

  keeps_first :
      (getters : List HttpGetter) (req : Request) (e : Error)
      → (invalidate_loop send getters req (some e)).1 ≡ some e
  unfolding invalidate_loop
  keeps_first [] req e = refl
  keeps_first (h ∷ getters) req e = elim (Option-cases (Client.invalidate send h req)) [
    | inl q ↦ rw q (keeps_first getters req e)
    | inr (f, q) ↦ rw q (keeps_first getters req e)
  ]

  first_of :
      (o : Option Error) → (if is_some o && not (is_some {A = Error} none) then o else none) ≡ o
  first_of none = refl
  first_of (some e) = refl

  invalidate_loop-cons :
      (h : HttpGetter) (getters : List HttpGetter) (req : Request) (o : Option Error)
      → Client.invalidate send h req ≡ o
      → (invalidate_loop send (h ∷ getters) req none).1 ≡ (invalidate_loop send getters req o).1
  unfolding invalidate_loop
  invalidate_loop-cons h getters req o q =
      ap (λ o. (invalidate_loop send getters req o).1) (first_of (Client.invalidate send h req) ∙ q)

  invalidate_loop-none :
      (getters : List HttpGetter) (req : Request)
      → (invalidate_loop send getters req none).1 ≡ none
      → All (λ h. Client.invalidate send h req ≡ none) getters
  invalidate_loop-none [] req e = tt
  invalidate_loop-none (h ∷ getters) req e = elim (Option-cases (Client.invalidate send h req)) [
    | inl q ↦
        (q, invalidate_loop-none getters req (sym (invalidate_loop-cons h getters req none q) ∙ e))
    | inr (f, q) ↦ absurd (
        none-ne-some f
          (sym e ∙ invalidate_loop-cons h getters req (some f) q ∙ keeps_first getters req f))
  ]

  -- After Set, a broadcast of an invalidation asks the getter of every address but the own one and
  -- of no other; if it reports no error, none of them failed.
  pub broadcast_invalidate-asks :
      (self : Key) (peers : List Key) (req : Request)
      → let done = broadcast_invalidate send (set (new_http_pool self) peers) req in
        ((x : Key)
          → Any (λ y. y ≡ x) peers
          → x ≢ self
          → Any (λ h. h ≡ getter_of default_base_path x) done.0)
        × All (λ h. (x : Key) × (x ≢ self) × IsGetter peers (x, h)) done.0
        × (done.1 ≡ none → All (λ h. Client.invalidate send h req ≡ none) done.0)
  unfolding broadcast_invalidate set new_http_pool
  broadcast_invalidate-asks self peers req =
      let m = set_loop default_base_path peers [] in
      let same = sym (invalidate_loop-asks (other_getters self m) req none) in
      (
        λ x q p. subst (Any (λ h. h ≡ getter_of default_base_path x)) same (
            other_getters-lookup self x (getter_of default_base_path x) m
              (lookup-set_loop default_base_path peers [] x (inl q)) p),
        subst (All _) same (
            other_getters-All (IsGetter peers) self m (
              set_loop-All (IsGetter peers) default_base_path peers []
                (All-map _ _ (λ x q. (q, refl)) peers (members peers peers (λ x q. q))) tt)),
        λ e. subst (All _) same (invalidate_loop-none (other_getters self m) req e),
      )
