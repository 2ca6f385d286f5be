-- ===== src/Singleflight/Once.antt =====
-- The steps, and the calls in flight for a key.
use cachecore.Base.{
  ℕ, ◌≡◌, ◌≢◌, refl, sym, ap, ◌∙◌, subst, inl, inr, true, List, [], ◌∷◌, ◌++◌, none, some,
  some-injective, none-ne-some, Option-cases, is_some, length, get_elem?, get_elem?-modify_ne,
  get_elem?-snoc, get_elem?-snoc_lt, get_elem?-snoc_end, get_elem?-lt,
}
use mathlib.Core.Bool.{true≢false}
use cachecore.Go.Bytes.{Key, key_dec}
use cachecore.Go.Map.{
  lookup, insert, lookup-insert_eq, lookup-insert_ne, lookup-delete_eq, lookup-delete_ne,
}
use cachecore.Singleflight.{
  running, finished, detached, sent, panicked, Call, Channel, Group, empty, call_at, enter, join,
  enter_chan, set_outcome, set_phase, finish, detach, send, Step, do_enters, chan_enters, returns,
  dies, detaches, sends, Steps, none_left, one_more,
}
use cachecore.Singleflight.Inflight.{
  in_flight, has_outcome, IsConsistent, empty-IsConsistent, modified, modify-IsConsistent,
}

module _ {V E : Type 0} where
  -- A new call under a key that the map does not hold.
  launch-IsConsistent :
      (g : Group V E) (n : Call V E) (chans : List (Channel V E))
      → IsConsistent g
      → lookup n.key g.m ≡ none
      → n.phase ≡ running
      → n.outcome ≡ none
      → IsConsistent (record {
        m = insert n.key (length g.calls) g.m;
        calls = g.calls ++ (n ∷ []);
        channels = chans;
      })
  unfolding call_at in_flight has_outcome
  launch-IsConsistent g n chans v new_key p o = record {
    mapped = λ key c e. elim (key_dec n.key key) [
      | yes q ↦
          let i : length g.calls ≡ c =
            some-injective _ _ (sym (lookup-insert_eq n.key key _ g.m q) ∙ e) in
          (
            n,
            subst (λ c. get_elem? (g.calls ++ (n ∷ [])) c ≡ some n) i
                (get_elem?-snoc_end g.calls n),
            q,
            ap in_flight p,
          )
      | no q ↦
          let (k, a, b, h) = v.mapped key c (sym (lookup-insert_ne n.key key _ g.m q) ∙ e) in
          (k, get_elem?-snoc_lt g.calls n c (get_elem?-lt g.calls c k a) ∙ a, b, h)
    ];
    known = λ c k e h. elim (get_elem?-snoc g.calls n k c e) [
      | inl (q, i) ↦ elim (key_dec n.key k.key) [
        | yes r ↦ absurd (none-ne-some c (sym new_key ∙ ap (λ j. lookup j g.m) r ∙ v.known c k i h))
        | no r ↦ lookup-insert_ne n.key k.key _ g.m r ∙ v.known c k i h
      ]
      | inr (q, i) ↦ lookup-insert_eq n.key k.key _ g.m (ap (λ k. k.key) i) ∙ ap some (sym q)
    ];
    decided = λ c k e. elim (get_elem?-snoc g.calls n k c e) [
      | inl (q, i) ↦ v.decided c k i
      | inr (q, i) ↦
          subst (λ k. has_outcome k.phase ≡ is_some k.outcome) i
            (ap has_outcome p ∙ sym (ap is_some o))
    ];
  }

  enter-IsConsistent : (key : Key) (g : Group V E) → IsConsistent g → IsConsistent (enter key g).0
  unfolding enter
  enter-IsConsistent key g v = elim (Option-cases (lookup key g.m)) [
    | inl e ↦ rw (enter, e) (launch-IsConsistent g _ g.channels v e refl refl)
    | inr (c, e) ↦ rw (enter, e) v
  ]

  enter_chan-IsConsistent :
      (key : Key) (g : Group V E) → IsConsistent g → IsConsistent (enter_chan key g).0
  unfolding enter_chan
  enter_chan-IsConsistent key g v = elim (Option-cases (lookup key g.m)) [
    | inl e ↦ rw (enter_chan, e) (launch-IsConsistent g _ _ v e refl refl)
    | inr (c, e) ↦
        let (k, a, b, h) = v.mapped key c e in
        rw (enter_chan, e)
          (modify-IsConsistent g c k (join (length g.channels)) _ v a refl refl (v.decided c k a))
  ]

  detach-IsConsistent :
      (g : Group V E) (c : ℕ) (k : Call V E)
      → IsConsistent g
      → call_at g c ≡ some k
      → k.phase ≡ finished
      → IsConsistent (detach c k.key g)
  unfolding call_at detach set_phase in_flight has_outcome
  detach-IsConsistent g c k v p f = record {
    mapped = λ key d e. elim (key_dec k.key key) [
      | yes q ↦ absurd (none-ne-some d (sym (lookup-delete_eq k.key key g.m q) ∙ e))
      | no q ↦
          let (j, a, b, h) = v.mapped key d (sym (lookup-delete_ne k.key key g.m q) ∙ e) in
          let other : c ≢ d = λ r.
            q (ap (λ k. k.key) (some-injective _ _ (sym p ∙ ap (get_elem? g.calls) r ∙ a)) ∙ b) in
          (j, get_elem?-modify_ne g.calls c d _ other ∙ a, b, h)
    ];
    known = λ d y e h. elim (modified g.calls c d (set_phase detached) k y p e) [
      | inl (q, i) ↦ absurd (true≢false (sym (ap (λ y. in_flight y.phase) i ∙ h)))
      | inr (q, i) ↦ elim (key_dec k.key y.key) [
        | yes r ↦
            let one : some c ≡ some d =
              sym (v.known c k p (ap in_flight f)) ∙ ap (λ j. lookup j g.m) r ∙ v.known d y i h in
            absurd (q (some-injective _ _ one))
        | no r ↦ lookup-delete_ne k.key y.key g.m r ∙ v.known d y i h
      ]
    ];
    decided = λ d y e. elim (modified g.calls c d (set_phase detached) k y p e) [
      | inl (q, i) ↦
          subst (λ k. has_outcome k.phase ≡ is_some k.outcome) i
            (sym (ap has_outcome f) ∙ v.decided c k p)
      | inr (q, i) ↦ v.decided d y i
    ];
  }

  pub Step-IsConsistent : (g h : Group V E) → Step g h → IsConsistent g → IsConsistent h
  unfolding finish send set_outcome set_phase in_flight has_outcome
  Step-IsConsistent g h (do_enters key) v = enter-IsConsistent key g v
  Step-IsConsistent g h (chan_enters key) v = enter_chan-IsConsistent key g v
  Step-IsConsistent g h (returns {k = k} c r a p) v =
      modify-IsConsistent g c k (set_outcome r) g.channels v a refl (sym (ap in_flight p)) refl
  Step-IsConsistent g h (dies {k = k} c a p q) v =
      modify-IsConsistent g c k (set_phase panicked) g.channels v a refl (sym (ap in_flight p))
        (sym (ap has_outcome p) ∙ v.decided c k a)
  Step-IsConsistent g h (detaches {k = k} c a p) v = detach-IsConsistent g c k v a p
  Step-IsConsistent g h (sends {k = k} c a p o) v =
      modify-IsConsistent g c k (set_phase sent) _ v a refl (sym (ap in_flight p))
        (sym (ap has_outcome p) ∙ v.decided c k a)

  pub Steps-IsConsistent : (g h : Group V E) → Steps g h → IsConsistent g → IsConsistent h
  Steps-IsConsistent g h none_left v = v
  Steps-IsConsistent g h (one_more {b = b} s t) v =
      Steps-IsConsistent b h t (Step-IsConsistent g b s v)

-- In every state that steps lead to from the empty group, two calls in flight with the same key are
-- one call: `fn` does not run twice at a time for a key.
pub single_call :
    {V E : Type 0} (g : Group V E) (c d : ℕ) (j k : Call V E)
    → Steps empty g
    → call_at g c ≡ some j
    → call_at g d ≡ some k
    → in_flight j.phase ≡ true
    → in_flight k.phase ≡ true
    → j.key ≡ k.key
    → c ≡ d
single_call g c d j k s a b p q e =
    let v = Steps-IsConsistent empty g s empty-IsConsistent in
    some-injective _ _ (sym (v.known c j a p) ∙ ap (λ i. lookup i g.m) e ∙ v.known d k b q)
