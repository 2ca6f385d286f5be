-- ===== src/Go/LinkedList/Order.antt =====
-- The back of a list.
use cachecore.Base.{ℕ, ◌+◌, ◌≡◌, refl, List, [], ◌∷◌, ◌++◌, none, some, arith, length, ap}
use cachecore.Go.Bytes.{Key}
use cachecore.Go.LinkedList.Defs.{
  Element, value_of, remove, back, front, push_front, move_to_front, set_value, total,
}
use cachecore.Go.LinkedList.Keyed.{Distinct}

module _ {ℓ} {A : Type ℓ} where
  pub back-eq-none : (l : List (Element A)) → back l ≡ none → l ≡ []
  unfolding back
  back-eq-none [] h = refl
  back-eq-none (e ∷ []) h = cc
  back-eq-none (e ∷ f ∷ l) h = absurd (cons_ne (back-eq-none (f ∷ l) h))
    where
      cons_ne : f ∷ l ≡ [] → ⊥
      cons_ne p = cc

  -- The last element, when no identity stands twice, is the one that its identity finds, and
  -- removing it leaves the elements in front of it.
  pub back-eq-some :
      (key : A → Key) (l : List (Element A)) (e : Element A)
      → Distinct key l
      → back l ≡ some e
      → (value_of e.id l ≡ some e.value) × (l ≡ remove e.id l ++ e ∷ [])
  unfolding back value_of remove
  back-eq-some key [] e d h = cc
  back-eq-some key (f ∷ []) e d h = ground arith
  back-eq-some key (f ∷ g ∷ l) e d h =
      let ih : (value_of e.id (g ∷ l) ≡ some e.value) × (g ∷ l ≡ remove e.id (g ∷ l) ++ e ∷ []) =
        back-eq-some key (g ∷ l) e d.2 h in
      ground (arith, ih)

  pub move_to_front-push_front :
      (i : ℕ) (a : A) (l : List (Element A))
      → value_of i l ≡ some a
      → move_to_front i l ≡ push_front i a (remove i l)
  unfolding move_to_front
  move_to_front-push_front i a l h = rw (h, move_to_front)

  pub move_to_front_absent :
      (i : ℕ) (l : List (Element A)) → value_of i l ≡ none → move_to_front i l ≡ l
  unfolding move_to_front
  move_to_front_absent i l h = rw (h, move_to_front)

  pub set_value-push_front :
      (i : ℕ) (a b : A) (l : List (Element A)) → set_value i b (push_front i a l) ≡ push_front i b l
  unfolding set_value
  set_value-push_front i a b l = ground arith

  -- The element at the front stays where it is.
  pub move_to_front-front :
      (l : List (Element A)) (f : Element A) → front l ≡ some f → move_to_front f.id l ≡ l
  unfolding move_to_front front value_of remove
  move_to_front-front [] f h = cc
  move_to_front-front (e ∷ l) f h = ground arith

  pub move_to_front_empty : (i : ℕ) (l : List (Element A)) → front l ≡ none → move_to_front i l ≡ l
  unfolding move_to_front front value_of
  move_to_front_empty i [] h = refl
  move_to_front_empty i (e ∷ l) h = cc

  pub total-append : (w : A → ℕ) (l m : List (Element A)) → total w (l ++ m) ≡ total w l + total w m
  unfolding total
  total-append w [] m = omega arith
  total-append w (e ∷ l) m = omega (arith, total-append w l m)

  pub remove-set_value :
      (i : ℕ) (b : A) (l : List (Element A)) → remove i (set_value i b l) ≡ remove i l
  unfolding remove set_value
  remove-set_value i b [] = refl
  remove-set_value i b (e ∷ l) = ground (arith, remove-set_value i b l)

  pub length-remove :
      (i : ℕ) (a : A) (l : List (Element A))
      → value_of i l ≡ some a
      → length (remove i l) + 1 ≡ length l
  unfolding value_of remove
  length-remove i a [] h = cc
  length-remove i a (e ∷ l) h = ground (arith, length-remove i a l)

  pub total-empty : (w : A → ℕ) (l : List (Element A)) → length l ≡ 0 → total w l ≡ 0
  unfolding total
  total-empty w [] h = refl
  total-empty w (e ∷ l) h = absurd (omega arith)

  pub back-length : (l : List (Element A)) → back l ≡ none → length l ≡ 0
  back-length l h = ap length (back-eq-none l h)

  pub back_of-length : (l : List (Element A)) → length l ≡ 0 → back l ≡ none
  unfolding back
  back_of-length [] h = refl
  back_of-length (e ∷ l) h = absurd (omega arith)
