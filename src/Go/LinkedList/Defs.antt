-- ===== src/Go/LinkedList/Defs.antt =====
-- The operations of container/list that the program calls: PushFront, Remove, MoveToFront, Back,
-- and reading and writing an element's value through its pointer.
use cachecore.Base.{ℕ, ◌+◌, ite, List, [], ◌∷◌, Option, none, some, ℕ_discrete}

pub record Element {ℓ} (A : Type ℓ) : Type ℓ where
  pub id : ℕ
  pub value : A

module _ {ℓ} {A : Type ℓ} where
  -- `ele.Value`; `none` if the element is not in the list
  unfoldable pub value_of : ℕ → List (Element A) → Option A
  value_of i [] = none
  value_of i (e ∷ l) = ite (ℕ_discrete e.id i) (some e.value) (value_of i l)

  -- `l.Remove(ele)`
  unfoldable pub remove : ℕ → List (Element A) → List (Element A)
  remove i [] = []
  remove i (e ∷ l) = ite (ℕ_discrete e.id i) l (e ∷ remove i l)

  -- `l.PushFront(v)`, given the identity of the new element
  abbrev pub push_front : ℕ → A → List (Element A) → List (Element A)
  push_front i a l = record { id = i; value = a } ∷ l

  -- `l.MoveToFront(ele)`: an element of another list is left alone
  unfoldable pub move_to_front : ℕ → List (Element A) → List (Element A)
  move_to_front i l = elim (value_of i l) [ none ↦ l | some a ↦ push_front i a (remove i l) ]

  -- a write to `*ele.Value`
  unfoldable pub set_value : ℕ → A → List (Element A) → List (Element A)
  set_value i a [] = []
  set_value i a (e ∷ l) =
      ite (ℕ_discrete e.id i) (record { id = i; value = a } ∷ l) (e ∷ set_value i a l)

  -- `l.Back()`
  unfoldable pub back : List (Element A) → Option (Element A)
  back [] = none
  back (e ∷ []) = some e
  back (e ∷ f ∷ l) = back (f ∷ l)

  -- `l.Front()`
  unfoldable pub front : List (Element A) → Option (Element A)
  front [] = none
  front (e ∷ l) = some e

  -- The sum of the weights of the values.
  unfoldable pub total : (A → ℕ) → List (Element A) → ℕ
  total w [] = 0
  total w (e ∷ l) = w e.value + total w l
