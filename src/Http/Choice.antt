-- ===== src/Http/Choice.antt =====
-- Which peer a pool picks, and which one the picked node would.
use cachecore.Base.{
  ◌≡◌, ◌≢◌, refl, ap, ◌∙◌, subst, ◌⊎◌, inl, inr, ◌<◌, true, false, List, [], ◌∷◌, ◌++◌, none, some,
  ◌==◌, length, arith, All, Any,
}
use cachecore.Go.Bytes.{Bytes, Key, equal-yes, equal-no, key_dec}
use cachecore.Go.Int64.{slt}
use cachecore.Go.Map.{Map, lookup, insert, lookup-insert_eq, lookup-insert_ne}
use cachecore.Http.Pool.{
  HttpGetter, default_base_path, new_http_pool, set_loop, set, no_peer, picked, pick_peer,
}
use cachecore.Ring
use cachecore.Ring.{Ring}
use cachecore.Ring.Nodes.{get-added}

abbrev pub getter_of : Bytes → Key → HttpGetter
getter_of base_path peer = record { base_url = peer ++ base_path }

-- Every address that is set has the getter of its address.
pub lookup-set_loop :
    (base_path : Bytes) (peers : List Key) (m : Map HttpGetter) (x : Key)
    → Any (λ y. y ≡ x) peers ⊎ (lookup x m ≡ some (getter_of base_path x))
    → lookup x (set_loop base_path peers m) ≡ some (getter_of base_path x)
unfolding set_loop
lookup-set_loop base_path [] m x p = elim p [ inl q ↦ elim q [ ] | inr e ↦ e ]
lookup-set_loop base_path (peer ∷ peers) m x p =
    let here : peer ≡ x
        → lookup x (insert peer (getter_of base_path peer) m) ≡ some (getter_of base_path x) =
      λ e.
        lookup-insert_eq peer x (getter_of base_path peer) m e
        ∙ ap (λ y. some (getter_of base_path y)) e in
    lookup-set_loop base_path peers (insert peer (getter_of base_path peer) m) x (elim p [
      | inl (inl e) ↦ inr (here e)
      | inl (inr q) ↦ inl q
      | inr e ↦ elim (key_dec peer x) [
        | yes f ↦ inr (here f)
        | no f ↦ inr (lookup-insert_ne peer x (getter_of base_path peer) m f ∙ e)
      ]
    ])

Any-All : (P : Key → Type 0) (xs : List Key) (x : Key) → Any (λ y. y ≡ x) xs → All P xs → P x
Any-All P [] x q p = elim q [ ]
Any-All P (y ∷ xs) x q p = elim q [ inl e ↦ subst P e p.0 | inr r ↦ Any-All P xs x r p.1 ]

-- The ring of the pools that are told the addresses.
abbrev pub ring_of : List Key → Ring
ring_of peers = Ring.add peers (Ring.new 50 none)

positive_replicas : slt 0 50 ≡ true
unfolding slt
positive_replicas = refl

pick_peer-set :
    (self node : Key) (nodes : List Key) (key : Key)
    → All (λ x. 0 < length x) (node ∷ nodes)
    → let owner = Ring.get (ring_of (node ∷ nodes)) key in
      ((owner ≡ self) × (pick_peer (set (new_http_pool self) (node ∷ nodes)) key ≡ no_peer))
      ⊎ ((owner ≢ self)
          × Any (λ x. x ≡ owner) (node ∷ nodes)
          × (pick_peer (set (new_http_pool self) (node ∷ nodes)) key
              ≡ picked (getter_of default_base_path owner)))
unfolding pick_peer set new_http_pool
pick_peer-set self node nodes key long =
    let owner = Ring.get (ring_of (node ∷ nodes)) key in
    let found = get-added 50 none node nodes key positive_replicas in
    let full : (length owner == 0) ≡ false =
      let q = Any-All (λ x. 0 < length x) (node ∷ nodes) owner found long in ground arith in
    elim (key_dec owner self) [
      | yes e ↦ inl (e, rw (full, equal-yes owner self e) refl)
      | no p ↦ inr (
        p,
        found,
        rw
            (
              full,
              equal-no owner self p,
              lookup-set_loop default_base_path (node ∷ nodes) [] owner (inl found),
            )
            refl,
      )
    ]

-- After Set with addresses, at least one and none empty, a pool picks no peer for the keys that the
-- ring of the addresses gives to its own address, and for every other key the getter of the owner.
-- The owner is one of the addresses, and a pool with that own address and the same addresses picks no
-- peer for the key: the request goes no further.
pub pick_peer-settles :
    (self node : Key) (nodes : List Key) (key : Key)
    → All (λ x. 0 < length x) (node ∷ nodes)
    → let owner = Ring.get (ring_of (node ∷ nodes)) key in
      ((owner ≡ self) × (pick_peer (set (new_http_pool self) (node ∷ nodes)) key ≡ no_peer))
      ⊎ ((owner ≢ self)
          × Any (λ x. x ≡ owner) (node ∷ nodes)
          × (pick_peer (set (new_http_pool self) (node ∷ nodes)) key
              ≡ picked (getter_of default_base_path owner))
          × (pick_peer (set (new_http_pool owner) (node ∷ nodes)) key ≡ no_peer))
pick_peer-settles self node nodes key long =
    let owner = Ring.get (ring_of (node ∷ nodes)) key in
    elim (pick_peer-set self node nodes key long) [
      | inl (e, q) ↦ inl (e, q)
      | inr (p, found, q) ↦ inr (
        p,
        found,
        q,
        elim (pick_peer-set owner node nodes key long) [
          | inl (_, r) ↦ r
          | inr (n, _, _) ↦ absurd (n refl)
        ],
      )
    ]
