-- ===== src/Singleflight/Channels.antt =====
-- The steps, and what the channels of `DoChan` hold; the sends to a list of channels.
use cachecore.Base.{
  ℕ, zero, suc, ◌≡◌, ◌≢◌, refl, sym, ap, ◌∙◌, inl, inr, List, [], ◌∷◌, ◌++◌, some, some-injective,
  none-ne-some, Option-cases, length, get_elem?, modify, get_elem?-modify_self, get_elem?-modify_ne,
  get_elem?-snoc_end, arith,
}
use cachecore.Go.Bytes.{Key}
use cachecore.Go.Map.{Map, lookup}
use cachecore.Singleflight.{
  Result, detached, sent, panicked, Call, Channel, Group, call_at, enter, enter_chan, set_outcome,
  set_phase, finish, detach, send_result, send_loop, send, Step, do_enters, chan_enters, returns,
  dies, detaches, sends, Steps, none_left, one_more,
}
use cachecore.Singleflight.Inflight.{IsConsistent, modified}
use cachecore.Singleflight.Once.{Step-IsConsistent}
use cachecore.Singleflight.Delivery.{
  opened, held_in, IsDelivered, grow-Apart, modify-IsDelivered, launch-IsDelivered,
  join-IsDelivered, kept_snoc,
}

one_place : (n i ch : ℕ) → get_elem? (n ∷ []) i ≡ some ch → (i ≡ 0) × (ch ≡ n)
one_place n zero ch e = (refl, sym (some-injective _ _ e))
one_place n (suc i) ch e = absurd (none-ne-some ch e)

module _ {V E : Type 0} where
  send_loop-other :
      (r : Result V E) (chs : List ℕ) (chans : List (Channel V E)) (ch : ℕ)
      → ((i : ℕ) → get_elem? chs i ≢ some ch)
      → get_elem? (send_loop r chs chans) ch ≡ get_elem? chans ch
  unfolding send_loop
  send_loop-other r [] chans ch off = refl
  send_loop-other r (x ∷ chs) chans ch off =
      send_loop-other r chs (modify chans x (send_result r)) ch (λ i. off (suc i))
      ∙ get_elem?-modify_ne chans x ch (send_result r) (λ e. off 0 (ap some e))

  -- The sends reach each channel of a list without repetition once.
  send_loop-each :
      (r : Result V E) (chs : List ℕ) (chans : List (Channel V E)) (i ch : ℕ) (x : Channel V E)
      → ((i j ch : ℕ) → get_elem? chs i ≡ some ch → get_elem? chs j ≡ some ch → i ≡ j)
      → get_elem? chs i ≡ some ch
      → get_elem? chans ch ≡ some x
      → get_elem? (send_loop r chs chans) ch ≡ some (send_result r x)
  unfolding send_loop
  send_loop-each r [] chans i ch x once at e = absurd (none-ne-some ch at)
  send_loop-each r (y ∷ chs) chans zero ch x once at e =
      let same = some-injective _ _ at in
      send_loop-other r chs (modify chans y (send_result r)) ch
        (λ j q. let n = once 0 (suc j) ch at q in absurd (omega (arith, n)))
      ∙ ap (λ y. get_elem? (modify chans y (send_result r)) ch) same
      ∙ get_elem?-modify_self chans ch (send_result r) x e
  send_loop-each r (y ∷ chs) chans (suc i) ch x once at e =
      send_loop-each r chs (modify chans y (send_result r)) i ch x
        (λ i j ch p q. let n = once (suc i) (suc j) ch p q in omega (arith, n)) at
        (get_elem?-modify_ne chans y ch (send_result r)
            (λ s. let n = once 0 (suc i) ch (ap some s) at in absurd (omega (arith, n)))
          ∙ e)

  send-IsDelivered :
      (g : Group V E) (c : ℕ) (k : Call V E) (r : Result V E)
      → IsDelivered g
      → get_elem? g.calls c ≡ some k
      → k.phase ≡ detached
      → k.outcome ≡ some r
      → IsDelivered (send c k.chs r g)
  unfolding send set_phase send_result held_in
  send-IsDelivered g c k r v p done out = record {
    holds = λ d i ch y e q. elim (modified g.calls c d (set_phase sent) k y p e) [
      | inl (s, t) ↦
          let q' = ap (λ y. get_elem? y.chs i) t ∙ q in
          send_loop-each r k.chs g.channels i ch opened
            (λ i j ch a b. (v.apart c c i j ch (k, p, a) (k, p, b)).1) q'
            (v.holds c i ch k p q' ∙ ap (λ p. some (held_in p k.outcome)) done)
          ∙ ap (λ o. some (held_in sent o)) (sym out)
          ∙ ap (λ y. some (held_in y.phase y.outcome)) t
      | inr (s, t) ↦
          send_loop-other r k.chs g.channels ch
            (λ j a. s (v.apart c d j i ch (k, p, a) (y, t, q)).0)
          ∙ v.holds d i ch y t q
    ];
    apart = grow-Apart g _ 0 0 v (λ d i ch (y, e, q).
        elim (modified g.calls c d (set_phase sent) k y p e) [
          | inl (s, t) ↦
              inl (k, ap (get_elem? g.calls) (sym s) ∙ p, ap (λ y. get_elem? y.chs i) t ∙ q)
          | inr (s, t) ↦ inl (y, t, q)
        ]);
  }

  enter-IsDelivered : (key : Key) (g : Group V E) → IsDelivered g → IsDelivered (enter key g).0
  unfolding enter held_in
  enter-IsDelivered key g v = elim (Option-cases (lookup key g.m)) [
    | inl e ↦
        rw (enter, e)
          (launch-IsDelivered g _ _ g.channels v refl (λ ch x p. p)
            (λ i ch p. absurd (none-ne-some ch p)))
    | inr (c, e) ↦ rw (enter, e) v
  ]

  enter_chan-IsDelivered :
      (key : Key) (g : Group V E)
      → IsConsistent g
      → IsDelivered g
      → IsDelivered (enter_chan key g).0
  unfolding enter_chan held_in call_at
  enter_chan-IsDelivered key g w v = elim (Option-cases (lookup key g.m)) [
    | inl e ↦
        rw (enter_chan, e)
          (launch-IsDelivered g _ _ _ v refl (kept_snoc g.channels) (λ i ch p.
            let (x, y) = one_place (length g.channels) i ch p in
            (
              x,
              y,
              ap (get_elem? (g.channels ++ (opened ∷ []))) y ∙ get_elem?-snoc_end g.channels opened,
            )))
    | inr (c, e) ↦
        let (k, a, b, h) = w.mapped key c e in rw (enter_chan, e) (join-IsDelivered g c k v a h)
  ]

  remap-IsDelivered : (g : Group V E) (m : Map ℕ) → IsDelivered g → IsDelivered (record g { m = m })
  remap-IsDelivered g m v = record { holds = v.holds; apart = v.apart }

  Step-IsDelivered : (g h : Group V E) → Step g h → IsConsistent g → IsDelivered g → IsDelivered h
  unfolding finish detach set_outcome set_phase held_in call_at
  Step-IsDelivered g h (do_enters key) w v = enter-IsDelivered key g v
  Step-IsDelivered g h (chan_enters key) w v = enter_chan-IsDelivered key g w v
  Step-IsDelivered g h (returns {k = k} c r a p) w v =
      modify-IsDelivered g c k (set_outcome r) v a refl (sym (ap (λ p. held_in p k.outcome) p))
  Step-IsDelivered g h (dies {k = k} c a p q) w v =
      modify-IsDelivered g c k (set_phase panicked) v a refl (sym (ap (λ p. held_in p k.outcome) p))
  Step-IsDelivered g h (detaches {k = k} c a p) w v =
      remap-IsDelivered (record g { calls = modify g.calls c (set_phase detached) }) _
        (modify-IsDelivered g c k (set_phase detached) v a refl
          (sym (ap (λ p. held_in p k.outcome) p)))
  Step-IsDelivered g h (sends {k = k} {r = r} c a p o) w v = send-IsDelivered g c k r v a p o

  pub Steps-IsDelivered :
      (g h : Group V E) → Steps g h → IsConsistent g → IsDelivered g → IsDelivered h
  Steps-IsDelivered g h none_left w v = v
  Steps-IsDelivered g h (one_more {b = b} s t) w v =
      Steps-IsDelivered b h t (Step-IsConsistent g b s w) (Step-IsDelivered g b s w v)
