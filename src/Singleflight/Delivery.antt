-- ===== src/Singleflight/Delivery.antt =====
-- What the channels of `DoChan` hold: the invariant, with new calls, new channels and calls that change.
use cachecore.Base.{
  ℕ, ◌<◌, ◌≡◌, refl, sym, ap, ◌∙◌, ◌⊎◌, inl, inr, true, false, List, [], ◌∷◌, ◌++◌, Option, some,
  none-ne-some, length, get_elem?, modify, get_elem?-snoc, get_elem?-snoc_lt, get_elem?-snoc_end,
  get_elem?-lt, arith,
}
use mathlib.Core.Bool.{true≢false}
use cachecore.Go.Map.{Map}
use cachecore.Singleflight.{
  Result, Phase, running, finished, detached, sent, panicked, Call, Channel, Group, empty, join,
}
use cachecore.Singleflight.Inflight.{in_flight, modified}

module _ {V E : Type 0} where
  abbrev pub opened : Channel V E
  opened = record { buffer = []; closed = false }

  -- What the channels of a call hold: nothing before the sends, and its result after them.
  unfoldable pub held_in : Phase → Option (Result V E) → Channel V E
  held_in sent (some r) = record { buffer = r ∷ []; closed = true }
  held_in _ _ = opened

  -- A call has a channel at an index of its list.
  abbrev pub Has : List (Call V E) → ℕ → ℕ → ℕ → Type 0
  Has calls c i ch = (k : Call V E) × (get_elem? calls c ≡ some k) × (get_elem? k.chs i ≡ some ch)

  -- No channel stands twice.
  abbrev pub Apart : List (Call V E) → Type 0
  Apart calls = (c d i j ch : ℕ) → Has calls c i ch → Has calls d j ch → (c ≡ d) × (i ≡ j)

  pub record IsDelivered (g : Group V E) : Type 0 where
    pub holds :
        (c i ch : ℕ) (k : Call V E)
        → get_elem? g.calls c ≡ some k
        → get_elem? k.chs i ≡ some ch
        → get_elem? g.channels ch ≡ some (held_in k.phase k.outcome)
    pub apart : Apart g.calls

  pub empty-IsDelivered : IsDelivered empty
  unfolding empty
  empty-IsDelivered = record {
    holds = λ c i ch k e p. absurd (none-ne-some k e);
    apart = λ c d i j ch (k, e, p) h. absurd (none-ne-some k e);
  }

  -- A channel is new, or where it was.
  pub grow-Apart :
      (g : Group V E) (calls : List (Call V E)) (c0 i0 : ℕ)
      → IsDelivered g
      → ((c i ch : ℕ)
          → Has calls c i ch
          → Has g.calls c i ch ⊎ ((c ≡ c0) × (i ≡ i0) × (ch ≡ length g.channels)))
      → Apart calls
  grow-Apart g calls c0 i0 v old c d i j ch p q =
      let small : (c i : ℕ) → Has g.calls c i ch → ch < length g.channels =
        λ c i (k, e, f). get_elem?-lt g.channels ch _ (v.holds c i ch k e f) in
      elim (old c i ch p) [
        | inl a ↦ elim (old d j ch q) [
          | inl b ↦ v.apart c d i j ch a b
          | inr (x, y, new) ↦ let lt = small c i a in absurd (omega (arith, lt, new))
        ]
        | inr (x, y, new) ↦ elim (old d j ch q) [
          | inl b ↦ let lt = small d j b in absurd (omega (arith, lt, new))
          | inr (x', y', new') ↦ (x ∙ sym x', y ∙ sym y')
        ]
      ]

  -- A change of one call that its channels do not show.
  pub modify-IsDelivered :
      (g : Group V E) (c : ℕ) (k : Call V E) (f : Call V E → Call V E)
      → IsDelivered g
      → get_elem? g.calls c ≡ some k
      → (f k).chs ≡ k.chs
      → held_in (f k).phase (f k).outcome ≡ held_in k.phase k.outcome
      → IsDelivered (record g { calls = modify g.calls c f })
  modify-IsDelivered g c k f v p same held = record {
    holds = λ d i ch y e q. elim (modified g.calls c d f k y p e) [
      | inl (r, s) ↦
          v.holds c i ch k p (ap (λ l. get_elem? l i) (sym same ∙ ap (λ y. y.chs) s) ∙ q)
          ∙ ap some (sym held ∙ ap (λ y. held_in y.phase y.outcome) s)
      | inr (r, s) ↦ v.holds d i ch y s q
    ];
    apart = grow-Apart g _ 0 0 v (λ d i ch (y, e, q). elim (modified g.calls c d f k y p e) [
      | inl (r, s) ↦ inl (
        k,
        ap (get_elem? g.calls) (sym r) ∙ p,
        ap (λ l. get_elem? l i) (sym same ∙ ap (λ y. y.chs) s) ∙ q,
      )
      | inr (r, s) ↦ inl (y, s, q)
    ]);
  }

  -- A new call, with no channel or a new one.
  pub launch-IsDelivered :
      (g : Group V E) (n : Call V E) (m : Map ℕ) (chans : List (Channel V E))
      → IsDelivered g
      → held_in n.phase n.outcome ≡ opened
      → ((ch : ℕ) (x : Channel V E)
          → get_elem? g.channels ch ≡ some x
          → get_elem? chans ch ≡ some x)
      → ((i ch : ℕ)
          → get_elem? n.chs i ≡ some ch
          → (i ≡ 0) × (ch ≡ length g.channels) × (get_elem? chans ch ≡ some opened))
      → IsDelivered (record { m = m; calls = g.calls ++ (n ∷ []); channels = chans })
  launch-IsDelivered g n m chans v new kept fresh = record {
    holds = λ c i ch k e p. elim (get_elem?-snoc g.calls n k c e) [
      | inl (_, a) ↦ kept ch _ (v.holds c i ch k a p)
      | inr (_, a) ↦
          (fresh i ch (ap (λ k. get_elem? k.chs i) a ∙ p)).2
          ∙ ap some (sym new ∙ ap (λ k. held_in k.phase k.outcome) a)
    ];
    apart = grow-Apart g _ (length g.calls) 0 v (λ c i ch (k, e, p).
        elim (get_elem?-snoc g.calls n k c e) [
          | inl (_, a) ↦ inl (k, a, p)
          | inr (at, a) ↦
              let (x, y, _) = fresh i ch (ap (λ k. get_elem? k.chs i) a ∙ p) in inr (at, x, y)
        ]);
  }

  pub kept_snoc :
      (chans : List (Channel V E)) (ch : ℕ) (x : Channel V E)
      → get_elem? chans ch ≡ some x
      → get_elem? (chans ++ (opened ∷ [])) ch ≡ some x
  kept_snoc chans ch x e = get_elem?-snoc_lt chans opened ch (get_elem?-lt chans ch x e) ∙ e

  pub in_flight-opened :
      (p : Phase) (o : Option (Result V E)) → in_flight p ≡ true → held_in p o ≡ opened
  unfolding in_flight held_in
  in_flight-opened running o e = refl
  in_flight-opened finished o e = refl
  in_flight-opened detached o e = refl
  in_flight-opened sent o e = absurd (true≢false (sym e))
  in_flight-opened panicked o e = refl

  -- A new channel for a call in flight.
  pub join-IsDelivered :
      (g : Group V E) (c : ℕ) (k : Call V E)
      → IsDelivered g
      → get_elem? g.calls c ≡ some k
      → in_flight k.phase ≡ true
      → IsDelivered (record g {
        calls = modify g.calls c (join (length g.channels));
        channels = g.channels ++ (opened ∷ []);
      })
  unfolding join
  join-IsDelivered g c k v p fly = record {
    holds = λ d i ch y e q. elim (modified g.calls c d (join (length g.channels)) k y p e) [
      | inl (r, s) ↦
          let same = ap (λ y. some (held_in y.phase y.outcome)) s in
          elim (get_elem?-snoc k.chs (length g.channels) ch i (ap (λ y. get_elem? y.chs i) s ∙ q)) [
            | inl (_, a) ↦ kept_snoc g.channels ch _ (v.holds c i ch k p a) ∙ same
            | inr (_, a) ↦
                ap (get_elem? (g.channels ++ (opened ∷ []))) (sym a)
                ∙ get_elem?-snoc_end g.channels opened
                ∙ ap some (sym (in_flight-opened k.phase k.outcome fly))
                ∙ same
          ]
      | inr (r, s) ↦ kept_snoc g.channels ch _ (v.holds d i ch y s q)
    ];
    apart = grow-Apart g _ c (length k.chs) v (λ d i ch (y, e, q).
        elim (modified g.calls c d (join (length g.channels)) k y p e) [
          | inl (r, s) ↦
              elim (get_elem?-snoc k.chs (length g.channels) ch i
                (ap (λ y. get_elem? y.chs i) s ∙ q)) [
                  | inl (_, a) ↦ inl (k, ap (get_elem? g.calls) (sym r) ∙ p, a)
                  | inr (at, a) ↦ inr (sym r, at, sym a)
                ]
          | inr (r, s) ↦ inl (y, s, q)
        ]);
  }
