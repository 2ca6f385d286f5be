-- ===== src/Metrics/Window.antt =====
-- The window of latencies in stats.go, and the most recent observations.
use cachecore.Base.{
  ℕ, ◌-◌, ◌≤◌, ◌<◌, ◌≡◌, refl, sym, ap, ◌∙◌, ◌⊎◌, inl, inr, true, false, List, [], ◌∷◌, ◌++◌, map,
  ltb, ◌==◌, length, length-append, append_assoc, arith, dec_lt, append-nil, subst,
}
use cachecore.Metrics.{LatencyWindow, clamp, drop_first, observe}

-- The observations of a list, in its order.
unfoldable pub observe_all : LatencyWindow → List ℕ → LatencyWindow
observe_all w [] = w
observe_all w (us ∷ rest) = observe_all (observe w us) rest

-- The samples are the end of a list, all of it or as many as the window takes.
pub record IsRecent (w : LatencyWindow) (all : List ℕ) : Type 0 where
  pub older : List ℕ
  pub split : all ≡ older ++ w.samples
  pub full : (older ≡ []) ⊎ (length w.samples ≡ w.cap)
  pub within : length w.samples ≤ w.cap

drop-split : (older xs : List ℕ) → 0 < length xs → (o : List ℕ) × (older ++ xs ≡ o ++ drop_first xs)
unfolding drop_first
drop-split older [] p = absurd (omega arith)
drop-split older (x ∷ xs) p = (older ++ (x ∷ []), sym (append_assoc older (x ∷ []) xs))

length-drop_first : (xs : List ℕ) → length (drop_first xs) ≡ length xs - 1
unfolding drop_first
length-drop_first [] = refl
length-drop_first (x ∷ xs) = omega arith

observe_free :
    (w : LatencyWindow) (us : ℕ)
    → 0 < w.cap
    → length w.samples < w.cap
    → observe w us ≡ record w { samples = w.samples ++ (clamp us ∷ []) }
unfolding observe
observe_free w us p q =
    let z : (w.cap == 0) ≡ false = ground arith in
    let e : ltb (length w.samples) w.cap ≡ true = ground arith in rw (observe, z, e) refl

observe_full :
    (w : LatencyWindow) (us : ℕ)
    → 0 < w.cap
    → w.cap ≤ length w.samples
    → observe w us ≡ record w { samples = drop_first w.samples ++ (clamp us ∷ []) }
unfolding observe
observe_full w us p q =
    let z : (w.cap == 0) ≡ false = ground arith in
    let e : ltb (length w.samples) w.cap ≡ false = ground arith in rw (observe, z, e) refl

-- The window is recent, and takes as many samples as before.
abbrev Stays : LatencyWindow → LatencyWindow → List ℕ → Type 0
Stays w w' all = (w'.cap ≡ w.cap) × IsRecent w' all

observe-Stays :
    (w : LatencyWindow) (all : List ℕ) (us : ℕ)
    → 0 < w.cap
    → IsRecent w all
    → Stays w (observe w us) (all ++ (clamp us ∷ []))
observe-Stays w all us p r =
    let new = clamp us ∷ [] in
    elim (dec_lt (length w.samples) w.cap) [
      | yes q ↦
          subst (λ w'. Stays w w' (all ++ new)) (sym (observe_free w us p q))
            (
              refl,
              record {
                older = r.older;
                split = ap (λ l. l ++ new) r.split ∙ append_assoc r.older w.samples new;
                full = elim r.full [ inl e ↦ inl e | inr e ↦ absurd (omega arith) ];
                within = omega (arith, length-append w.samples new);
              },
            )
      | no q ↦
          let (o, e) = drop-split r.older w.samples (omega arith) in
          let n : length (drop_first w.samples ++ new) ≡ w.cap = omega (
            arith,
            length-append (drop_first w.samples) new,
            length-drop_first w.samples,
            r.within,
          ) in
          subst (λ w'. Stays w w' (all ++ new)) (sym (observe_full w us p (omega arith)))
            (
              refl,
              record {
                older = o;
                split =
                    ap (λ l. l ++ new) (r.split ∙ e) ∙ append_assoc o (drop_first w.samples) new;
                full = inr n;
                within = omega (arith, n);
              },
            )
    ]

observe_all-IsRecent :
    (uss : List ℕ) (w : LatencyWindow) (all : List ℕ)
    → 0 < w.cap
    → IsRecent w all
    → Stays w (observe_all w uss) (all ++ map clamp uss)
unfolding observe_all
observe_all-IsRecent [] w all p r = (refl, subst (IsRecent w) (sym (append-nil all)) r)
observe_all-IsRecent (us ∷ uss) w all p r =
    let (e, s) = observe-Stays w all us p r in
    let (f, t) =
      observe_all-IsRecent uss (observe w us) (all ++ (clamp us ∷ [])) (omega (arith, e)) s in
    (
      f ∙ e,
      subst (IsRecent (observe_all (observe w us) uss))
          (append_assoc all (clamp us ∷ []) (map clamp uss)) t,
    )

-- After any latencies are observed in an empty window of positive size, its samples are the most recent of them,
-- clamped to 32 bits and in their order: all of them, or as many as the window takes.
pub observe-IsRecent :
    (cap : ℕ) (uss : List ℕ)
    → 0 < cap
    → IsRecent (observe_all (record { samples = []; cap = cap }) uss) (map clamp uss)
observe-IsRecent cap uss p =
    let start : IsRecent (record { samples = []; cap = cap }) [] = record {
      older = [];
      split = refl;
      full = inl refl;
      within = omega arith;
    } in
    (observe_all-IsRecent uss _ [] p start).1
