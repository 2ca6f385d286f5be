-- ===== src/Singleflight/Inflight.antt =====
-- Calls in flight, and the one that the map holds for a key.
use cachecore.Base.{
  ℕ, ◌≡◌, ◌≢◌, sym, ap, ◌∙◌, subst, ◌⊎◌, inl, inr, Bool, true, false, List, some, some-injective,
  none-ne-some, is_some, get_elem?, modify, get_elem?-modify_self, get_elem?-modify_ne, ℕ_discrete,
}
use cachecore.Go.Bytes.{Key}
use cachecore.Go.Map.{lookup}
use cachecore.Singleflight.{
  Phase, running, finished, detached, sent, panicked, Call, Channel, Group, empty, call_at,
}

-- The goroutine of the call has not come to the delete.
unfoldable pub in_flight : Phase → Bool
in_flight running = true
in_flight finished = true
in_flight detached = false
in_flight sent = false
in_flight panicked = true

unfoldable pub has_outcome : Phase → Bool
has_outcome running = false
has_outcome finished = true
has_outcome detached = true
has_outcome sent = true
has_outcome panicked = false

module _ {V E : Type 0} where
  pub record IsConsistent (g : Group V E) : Type 0 where
    pub mapped :
        (key : Key) (c : ℕ)
        → lookup key g.m ≡ some c
        → (k : Call V E) × (call_at g c ≡ some k) × (k.key ≡ key) × (in_flight k.phase ≡ true)
    pub known :
        (c : ℕ) (k : Call V E)
        → call_at g c ≡ some k
        → in_flight k.phase ≡ true
        → lookup k.key g.m ≡ some c
    pub decided :
        (c : ℕ) (k : Call V E) → call_at g c ≡ some k → has_outcome k.phase ≡ is_some k.outcome

  pub empty-IsConsistent : IsConsistent empty
  unfolding empty lookup call_at
  empty-IsConsistent = record {
    mapped = λ key c e. absurd (none-ne-some c e);
    known = λ c k e p. absurd (none-ne-some k e);
    decided = λ c k e. absurd (none-ne-some k e);
  }

  -- The call at an index after one is changed.
  pub modified :
      (xs : List (Call V E)) (c d : ℕ) (f : Call V E → Call V E) (k y : Call V E)
      → get_elem? xs c ≡ some k
      → get_elem? (modify xs c f) d ≡ some y
      → ((c ≡ d) × (f k ≡ y)) ⊎ ((c ≢ d) × (get_elem? xs d ≡ some y))
  modified xs c d f k y p e = elim (ℕ_discrete c d) [
    | yes q ↦ inl (
      q,
      some-injective _ _ (
          sym (get_elem?-modify_self xs c f k p)
          ∙ subst (λ i. get_elem? (modify xs c f) i ≡ some y) (sym q) e),
    )
    | no q ↦ inr (q, sym (get_elem?-modify_ne xs c d f q) ∙ e)
  ]

  -- A change of one call that keeps its key and whether it is in flight.
  pub modify-IsConsistent :
      (g : Group V E) (c : ℕ) (k : Call V E) (f : Call V E → Call V E) (chans : List (Channel V E))
      → IsConsistent g
      → call_at g c ≡ some k
      → (f k).key ≡ k.key
      → in_flight (f k).phase ≡ in_flight k.phase
      → has_outcome (f k).phase ≡ is_some (f k).outcome
      → IsConsistent (record g { calls = modify g.calls c f; channels = chans })
  unfolding call_at
  modify-IsConsistent g c k f chans v p same fly out = record {
    mapped = λ key d e.
        let (j, a, b, h) = v.mapped key d e in
        elim (ℕ_discrete c d) [
          | yes q ↦
              let i : k ≡ j =
                some-injective _ _ (sym p ∙ subst (λ d. get_elem? g.calls d ≡ some j) (sym q) a) in
              (
                f k,
                subst (λ d. get_elem? (modify g.calls c f) d ≡ some (f k)) q
                    (get_elem?-modify_self g.calls c f k p),
                same ∙ ap (λ k. k.key) i ∙ b,
                fly ∙ ap (λ k. in_flight k.phase) i ∙ h,
              )
          | no q ↦ (j, get_elem?-modify_ne g.calls c d f q ∙ a, b, h)
        ];
    known = λ d y e h. elim (modified g.calls c d f k y p e) [
      | inl (q, i) ↦
          let h' : in_flight k.phase ≡ true = sym fly ∙ ap (λ k. in_flight k.phase) i ∙ h in
          ap (λ k. lookup k g.m) (sym (ap (λ k. k.key) i) ∙ same) ∙ v.known c k p h' ∙ ap some q
      | inr (q, i) ↦ v.known d y i h
    ];
    decided = λ d y e. elim (modified g.calls c d f k y p e) [
      | inl (q, i) ↦ subst (λ k. has_outcome k.phase ≡ is_some k.outcome) i out
      | inr (q, i) ↦ v.decided d y i
    ];
  }
