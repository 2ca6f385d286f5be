-- ===== src/Singleflight/Promises.antt =====
-- What the channel that `DoChan` returns holds, from then on.
use cachecore.Base.{
  ℕ, ◌≡◌, refl, sym, ap, ◌∙◌, inl, inr, [], ◌∷◌, ◌++◌, some, Option-cases, is_some, length,
  get_elem?, modify, get_elem?-modify_self, get_elem?-modify_ne, get_elem?-snoc_lt,
  get_elem?-snoc_end, get_elem?-lt, ℕ_discrete,
}
use cachecore.Go.Bytes.{Key}
use cachecore.Go.Map.{lookup}
use cachecore.Singleflight.{
  detached, sent, panicked, Call, Group, empty, call_at, enter, join, enter_chan, set_outcome,
  set_phase, finish, detach, send, wait, Step, do_enters, chan_enters, returns, dies, detaches,
  sends, Steps, none_left, one_more,
}
use cachecore.Singleflight.Inflight.{has_outcome, IsConsistent, empty-IsConsistent}
use cachecore.Singleflight.Once.{Steps-IsConsistent}
use cachecore.Singleflight.Delivery.{held_in, empty-IsDelivered}
use cachecore.Singleflight.Channels.{Steps-IsDelivered}

module _ {V E : Type 0} where
  -- A call of the key with the channel on its list.
  abbrev pub Serves : Group V E → Key → ℕ → ℕ → Call V E → Type 0
  Serves g key ch c k =
      (call_at g c ≡ some k) × (k.key ≡ key) × ((i : ℕ) × (get_elem? k.chs i ≡ some ch))

  abbrev Served : Group V E → Key → ℕ → Type 0
  Served g key ch = (c : ℕ) × (k : Call V E) × Serves g key ch c k

  -- A change of a call that takes no channel away.
  abbrev Widens : (Call V E → Call V E) → Type 0
  Widens f =
      (k : Call V E)
      → ((f k).key ≡ k.key)
        × ((i ch : ℕ) → get_elem? k.chs i ≡ some ch → get_elem? (f k).chs i ≡ some ch)

  modify-Served :
      (g h : Group V E) (key : Key) (ch c : ℕ) (f : Call V E → Call V E)
      → Widens f
      → h.calls ≡ modify g.calls c f
      → Served g key ch
      → Served h key ch
  unfolding call_at
  modify-Served g h key ch c f wide same (d, k, (e, q, (i, p))) = elim (ℕ_discrete c d) [
    | yes r ↦ (
      d,
      f k,
      (
        ap (λ l. get_elem? l d) same
            ∙ ap (λ c. get_elem? (modify g.calls c f) d) r
            ∙ get_elem?-modify_self g.calls d f k e,
        (wide k).0 ∙ q,
        (i, (wide k).1 i ch p),
      ),
    )
    | no r ↦
        (d, k, (ap (λ l. get_elem? l d) same ∙ get_elem?-modify_ne g.calls c d f r ∙ e, q, (i, p)))
  ]

  snoc-Served :
      (g h : Group V E) (key : Key) (ch : ℕ) (n : Call V E)
      → h.calls ≡ g.calls ++ (n ∷ [])
      → Served g key ch
      → Served h key ch
  unfolding call_at
  snoc-Served g h key ch n same (d, k, (e, q, (i, p))) = (
    d,
    k,
    (
      ap (λ l. get_elem? l d) same ∙ get_elem?-snoc_lt g.calls n d (get_elem?-lt g.calls d k e) ∙ e,
      q,
      (i, p),
    ),
  )

  join-Widens : (n : ℕ) → Widens (join n)
  unfolding join
  join-Widens n k = (refl, λ i ch e. get_elem?-snoc_lt k.chs n i (get_elem?-lt k.chs i ch e) ∙ e)

  enter-Served :
      (key j : Key) (ch : ℕ) (g : Group V E) → Served g j ch → Served (enter key g).0 j ch
  unfolding enter
  enter-Served key j ch g s = elim (Option-cases (lookup key g.m)) [
    | inl e ↦ rw (enter, e) (snoc-Served g _ j ch _ refl s)
    | inr (c, e) ↦ rw (enter, e) s
  ]

  enter_chan-Served :
      (key j : Key) (ch : ℕ) (g : Group V E) → Served g j ch → Served (enter_chan key g).0 j ch
  unfolding enter_chan
  enter_chan-Served key j ch g s = elim (Option-cases (lookup key g.m)) [
    | inl e ↦ rw (enter_chan, e) (snoc-Served g _ j ch _ refl s)
    | inr (c, e) ↦ rw (enter_chan, e) (modify-Served g _ j ch c _ (join-Widens _) refl s)
  ]

  Step-Served :
      (g h : Group V E) (key : Key) (ch : ℕ) → Step g h → Served g key ch → Served h key ch
  unfolding finish detach send set_outcome set_phase
  Step-Served g h key ch (do_enters j) s = enter-Served j key ch g s
  Step-Served g h key ch (chan_enters j) s = enter_chan-Served j key ch g s
  Step-Served g h key ch (returns c r a p) s =
      modify-Served g h key ch c (set_outcome r) (λ k. (refl, λ i ch e. e)) refl s
  Step-Served g h key ch (dies c a p q) s =
      modify-Served g h key ch c (set_phase panicked) (λ k. (refl, λ i ch e. e)) refl s
  Step-Served g h key ch (detaches c a p) s =
      modify-Served g h key ch c (set_phase detached) (λ k. (refl, λ i ch e. e)) refl s
  Step-Served g h key ch (sends c a p o) s =
      modify-Served g h key ch c (set_phase sent) (λ k. (refl, λ i ch e. e)) refl s

  Steps-Served :
      (g h : Group V E) (key : Key) (ch : ℕ) → Steps g h → Served g key ch → Served h key ch
  Steps-Served g h key ch none_left s = s
  Steps-Served g h key ch (one_more {b = b} t u) s =
      Steps-Served b h key ch u (Step-Served g b key ch t s)

  enter_chan-serves :
      (key : Key) (g : Group V E)
      → IsConsistent g
      → Served (enter_chan key g).0 key (enter_chan key g).1
  unfolding enter_chan join call_at
  enter_chan-serves key g w = elim (Option-cases (lookup key g.m)) [
    | inl e ↦
        rw (enter_chan, e) (length g.calls, _, (get_elem?-snoc_end g.calls _, refl, (0, refl)))
    | inr (c, e) ↦
        let (k, a, b, h) = w.mapped key c e in
        rw (enter_chan, e)
          (
            c,
            join (length g.channels) k,
            (
              get_elem?-modify_self g.calls c (join (length g.channels)) k a,
              b,
              (length k.chs, get_elem?-snoc_end k.chs (length g.channels)),
            ),
          )
  ]

  -- The call of the key that the channel is for, and what the channel holds: nothing until the sends
  -- of the call, and then what a wait for it returns, which it does once `fn` has returned.
  abbrev pub Delivers : Group V E → Key → ℕ → Type 0
  Delivers g key ch =
      (c : ℕ) × (k : Call V E) × Serves g key ch c k
      × (get_elem? g.channels ch ≡ some (held_in k.phase (wait c g)))
      × (is_some (wait c g) ≡ has_outcome k.phase)

  -- The channel that `DoChan` returns, in a state that steps lead to from the empty group, stands on
  -- the list of a call of its key in every later state. As long as that call has not come to its
  -- sends, the channel is open and empty, so that they do not block; after them it is closed and
  -- holds once the result that all waits for the call return, which they do from the return of `fn`
  -- on.
  pub enter_chan-Delivers :
      (g h : Group V E) (key : Key)
      → Steps empty g
      → Steps (enter_chan key g).0 h
      → Delivers h key (enter_chan key g).1
  unfolding call_at wait
  enter_chan-Delivers g h key s t =
      let w = Steps-IsConsistent empty g s empty-IsConsistent in
      let w' = Steps-IsConsistent g h (one_more (chan_enters key) t) w in
      let v = Steps-IsDelivered empty g s empty-IsConsistent empty-IsDelivered in
      let v' = Steps-IsDelivered g h (one_more (chan_enters key) t) w v in
      let (c, k, (a, q, (i, p))) = Steps-Served _ h key _ t (enter_chan-serves key g w) in
      let out : wait c h ≡ k.outcome = rw (wait, a) refl in
      (
        c,
        k,
        (a, q, (i, p)),
        v'.holds c i _ k a p ∙ ap (λ o. some (held_in k.phase o)) (sym out),
        ap is_some out ∙ sym (w'.decided c k a),
      )
