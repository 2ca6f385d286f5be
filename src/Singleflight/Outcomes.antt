-- ===== src/Singleflight/Outcomes.antt =====
-- The outcome of a call over the steps, and a panic of `fn` in `Do`.
use cachecore.Base.{
  ℕ, ◌≡◌, ◌≢◌, refl, sym, ap, ◌∙◌, subst, inl, inr, Bool, true, false, List, [], ◌∷◌, ◌++◌, Option,
  none, some, some-injective, none-ne-some, Option-cases, is_some, length, get_elem?, modify,
  get_elem?-modify_self, get_elem?-modify_ne, get_elem?-snoc_lt, get_elem?-lt, ℕ_discrete,
}
use mathlib.Core.Bool.{true≢false}
use cachecore.Go.Map.{lookup}
use cachecore.Singleflight.{
  Result, Phase, running, detached, sent, panicked, Call, Group, empty, call_at, enter, join,
  enter_chan, set_outcome, set_phase, finish, detach, send, wait, Step, do_enters, chan_enters,
  returns, dies, detaches, sends, Steps, none_left, one_more,
}
use cachecore.Singleflight.Inflight.{in_flight, has_outcome, IsConsistent, empty-IsConsistent}
use cachecore.Singleflight.Once.{Step-IsConsistent, Steps-IsConsistent}

no_outcome : {A : Type 0} (o : Option A) → is_some o ≡ false → o ≡ none
no_outcome none e = refl
no_outcome (some a) e = absurd (true≢false e)

-- What no step changes of a call.
pub record Keeps {V E : Type 0} (j k : Call V E) : Type 0 where
  pub key : k.key ≡ j.key
  pub outcome : has_outcome j.phase ≡ true → (k.outcome ≡ j.outcome) × (has_outcome k.phase ≡ true)
  pub dead : j.phase ≡ panicked → k.phase ≡ panicked

module _ {V E : Type 0} where
  Keeps-refl : (k : Call V E) → Keeps k k
  Keeps-refl k = record { key = refl; outcome = λ p. (refl, p); dead = λ p. p }

  Keeps-trans : (i j k : Call V E) → Keeps i j → Keeps j k → Keeps i k
  Keeps-trans i j k a b = record {
    key = b.key ∙ a.key;
    outcome = λ p. let (e, q) = a.outcome p in let (f, r) = b.outcome q in (f ∙ e, r);
    dead = λ p. b.dead (a.dead p);
  }

  running-Keeps : (k l : Call V E) → k.phase ≡ running → l.key ≡ k.key → Keeps k l
  unfolding has_outcome
  running-Keeps k l p e = record {
    key = e;
    outcome = λ q. absurd (true≢false (sym q ∙ ap has_outcome p));
    dead = λ q. absurd (running≢panicked (sym p ∙ q));
  }
    where
      is_running : Phase → Bool
      is_running running = true
      is_running _ = false

      running≢panicked : running ≢ panicked
      running≢panicked r = true≢false (ap is_running r)

  -- The call with number `c` in a later state.
  abbrev pub Kept : List (Call V E) → ℕ → Call V E → Type 0
  Kept calls c k = (l : Call V E) × (get_elem? calls c ≡ some l) × Keeps k l

  modify-Kept :
      (g : Group V E) (c : ℕ) (k : Call V E) (f : Call V E → Call V E)
      → call_at g c ≡ some k
      → Keeps k (f k)
      → (d : ℕ) (y : Call V E) → call_at g d ≡ some y
      → Kept (modify g.calls c f) d y
  unfolding call_at
  modify-Kept g c k f p s d y e = elim (ℕ_discrete c d) [
    | yes q ↦
        let i : k ≡ y =
          some-injective _ _ (sym p ∙ subst (λ d. get_elem? g.calls d ≡ some y) (sym q) e) in
        (
          f k,
          subst (λ d. get_elem? (modify g.calls c f) d ≡ some (f k)) q
              (get_elem?-modify_self g.calls c f k p),
          subst (λ y. Keeps y (f k)) i s,
        )
    | no q ↦ (y, get_elem?-modify_ne g.calls c d f q ∙ e, Keeps-refl y)
  ]

  launch-Kept :
      (g : Group V E) (n : Call V E)
      → (d : ℕ) (y : Call V E) → call_at g d ≡ some y
      → Kept (g.calls ++ (n ∷ [])) d y
  unfolding call_at
  launch-Kept g n d y e =
      (y, get_elem?-snoc_lt g.calls n d (get_elem?-lt g.calls d y e) ∙ e, Keeps-refl y)

  Step-Kept :
      (g h : Group V E)
      → Step g h
      → IsConsistent g
      → (d : ℕ) (y : Call V E) → call_at g d ≡ some y
      → Kept h.calls d y
  unfolding finish detach send set_outcome set_phase has_outcome enter enter_chan call_at
  Step-Kept g h (do_enters key) v d y e = elim (Option-cases (lookup key g.m)) [
    | inl i ↦ rw (enter, i) (launch-Kept g _ d y e)
    | inr (c, i) ↦ rw (enter, i) ((y, e, Keeps-refl y))
  ]
  Step-Kept g h (chan_enters key) v d y e = elim (Option-cases (lookup key g.m)) [
    | inl i ↦ rw (enter_chan, i) (launch-Kept g _ d y e)
    | inr (c, i) ↦
        let (k, a, b, f) = v.mapped key c i in
        rw (enter_chan, i)
          (modify-Kept g c k (join (length g.channels)) a
            (record { key = refl; outcome = λ p. (refl, p); dead = λ p. p }) d y e)
  ]
  Step-Kept g h (returns {k = k} c r a p) v d y e =
      modify-Kept g c k (set_outcome r) a (running-Keeps k (set_outcome r k) p refl) d y e
  Step-Kept g h (dies {k = k} c a p q) v d y e =
      modify-Kept g c k (set_phase panicked) a (running-Keeps k (set_phase panicked k) p refl) d y e
  Step-Kept g h (detaches {k = k} c a p) v d y e =
      modify-Kept g c k (set_phase detached) a
        (record {
          key = refl;
          outcome = λ q. (refl, refl);
          dead = λ q. absurd (true≢false (sym (ap has_outcome p) ∙ ap has_outcome q));
        })
        d y e
  Step-Kept g h (sends {k = k} c a p o) v d y e =
      modify-Kept g c k (set_phase sent) a
        (record {
          key = refl;
          outcome = λ q. (refl, refl);
          dead = λ q. absurd (true≢false (sym (ap has_outcome p) ∙ ap has_outcome q));
        })
        d y e

  Steps-Kept :
      (g h : Group V E)
      → Steps g h
      → IsConsistent g
      → (d : ℕ) (y : Call V E) → call_at g d ≡ some y
      → Kept h.calls d y
  unfolding call_at
  Steps-Kept g h none_left v d y e = (y, e, Keeps-refl y)
  Steps-Kept g h (one_more {b = b} s t) v d y e =
      let (k, a, i) = Step-Kept g b s v d y e in
      let (l, c, j) = Steps-Kept b h t (Step-IsConsistent g b s v) d k a in
      (l, c, Keeps-trans y k l i j)

  wait-call : (g : Group V E) (c : ℕ) (k : Call V E) → call_at g c ≡ some k → wait c g ≡ k.outcome
  unfolding wait
  wait-call g c k e = rw (wait, e) refl

  wait-none : (g : Group V E) (c : ℕ) → call_at g c ≡ none → wait c g ≡ none
  unfolding wait
  wait-none g c e = rw (wait, e) refl

  call-wait :
      (g : Group V E) (c : ℕ) (r : Result V E)
      → wait c g ≡ some r
      → (k : Call V E) × (call_at g c ≡ some k) × (k.outcome ≡ some r)
  call-wait g c r e = elim (Option-cases (call_at g c)) [
    | inl i ↦ absurd (none-ne-some r (sym (wait-none g c i) ∙ e))
    | inr (k, i) ↦ (k, i, sym (wait-call g c k i) ∙ e)
  ]

-- All callers of `Do` that wait for a call return the same: once the wait for a call ends with a result, it
-- ends with that result after any further steps.
pub wait-Steps :
    {V E : Type 0} (g h : Group V E) (c : ℕ) (r : Result V E)
    → Steps empty g
    → wait c g ≡ some r
    → Steps g h
    → wait c h ≡ some r
unfolding call_at
wait-Steps g h c r s e t =
    let v = Steps-IsConsistent empty g s empty-IsConsistent in
    let (k, a, i) = call-wait g c r e in
    let (l, b, j) = Steps-Kept g h t v c k a in
    wait-call h c l b ∙ (j.outcome (v.decided c k a ∙ ap is_some i)).0 ∙ i

-- After `fn` has panicked in `Do`, which does not recover, its call stays in the map without a result: after any
-- further steps, a caller of `Do` with its key is given that call, and the wait for it does not end.
pub panic_blocks :
    {V E : Type 0} (g h : Group V E) (c : ℕ) (k : Call V E)
    → Steps empty g
    → call_at g c ≡ some k
    → k.phase ≡ panicked
    → Steps g h
    → (enter k.key h ≡ (h, c)) × (wait c h ≡ none)
unfolding enter in_flight has_outcome call_at
panic_blocks g h c k s a p t =
    let v = Steps-IsConsistent empty g s empty-IsConsistent in
    let w = Steps-IsConsistent g h t v in
    let (l, b, j) = Steps-Kept g h t v c k a in
    let q = j.dead p in
    let i = ap (λ k. lookup k h.m) (sym j.key) ∙ w.known c l b (ap in_flight q) in
    (
      rw (enter, i) refl,
      wait-call h c l b ∙ no_outcome l.outcome (sym (w.decided c l b) ∙ ap has_outcome q),
    )
