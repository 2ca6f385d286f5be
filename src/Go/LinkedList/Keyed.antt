-- ===== src/Go/LinkedList/Keyed.antt =====
-- Lists whose values carry a key, with no identity and no key twice.
use cachecore.Base.{
  ℕ, ◌+◌, ◌≡◌, refl, ◌≢◌, ite, List, [], ◌∷◌, ◌++◌, ◌<◌, ◌≤◌, Option, none, some, arith, ℕ_discrete,
  All, All-map,
}
use cachecore.Go.Bytes.{Key, key_dec}
use cachecore.Go.LinkedList.Defs.{Element, value_of, remove, set_value, total}

module _ {ℓ} {A : Type ℓ} (key : A → Key) where
  -- The identity of the first element with the key.
  unfoldable pub id_of : Key → List (Element A) → Option ℕ
  id_of k [] = none
  id_of k (e ∷ l) = ite (key_dec (key e.value) k) (some e.id) (id_of k l)

  abbrev pub Distinct : List (Element A) → Type ℓ
  Distinct [] = Unit
  Distinct (e ∷ l) = (value_of e.id l ≡ none) × (id_of (key e.value) l ≡ none) × Distinct l

  -- A key leads to an element of that key.
  pub value_of-id_of :
      (k : Key) (l : List (Element A)) {i : ℕ}
      → Distinct l
      → id_of k l ≡ some i
      → (a : A) × (value_of i l ≡ some a) × (key a ≡ k)
  unfolding value_of id_of
  value_of-id_of k [] d h = cc
  value_of-id_of k (e ∷ l) {i} d h = elim (key_dec (key e.value) k) [
    | yes p ↦ (e.value, ground arith, p)
    | no n ↦ let (a, v, q) = value_of-id_of k l {i = i} d.2 (ground arith) in (a, ground arith, q)
  ]

  pub id_of-value_of :
      (l : List (Element A)) (i : ℕ) (a : A)
      → Distinct l
      → value_of i l ≡ some a
      → id_of (key a) l ≡ some i
  unfolding value_of id_of
  id_of-value_of [] i a d h = cc
  id_of-value_of (e ∷ l) i a d h = ground (arith, id_of-value_of l i a d.2)

  pub id_of-remove :
      (l : List (Element A)) (i : ℕ) (a : A) (j : Key)
      → Distinct l
      → value_of i l ≡ some a
      → id_of j (remove i l) ≡ ite (key_dec (key a) j) none (id_of j l)
  unfolding value_of id_of remove
  id_of-remove [] i a j d h = cc
  id_of-remove (e ∷ l) i a j d h =
      ground (arith, id_of-remove l i a j d.2, id_of-value_of l i a d.2)

  pub id_of-set_value :
      (l : List (Element A)) (i : ℕ) (a b : A) (j : Key)
      → value_of i l ≡ some a
      → key b ≡ key a
      → id_of j (set_value i b l) ≡ id_of j l
  unfolding value_of id_of set_value
  id_of-set_value [] i a b j h q = refl
  id_of-set_value (e ∷ l) i a b j h q = ground (arith, id_of-set_value l i a b j)

module _ {ℓ} {A : Type ℓ} where
  pub value_of-remove_ne :
      (i j : ℕ) (l : List (Element A)) → i ≢ j → value_of j (remove i l) ≡ value_of j l
  unfolding value_of remove
  value_of-remove_ne i j [] h = refl
  value_of-remove_ne i j (e ∷ l) h = ground (arith, value_of-remove_ne i j l)

  pub value_of-remove_none :
      (i j : ℕ) (l : List (Element A)) → value_of j l ≡ none → value_of j (remove i l) ≡ none
  unfolding value_of remove
  value_of-remove_none i j [] h = refl
  value_of-remove_none i j (e ∷ l) h = ground (arith, value_of-remove_none i j l)

  pub value_of-set_value :
      (i j : ℕ) (b : A) (l : List (Element A)) {a : A}
      → value_of i l ≡ some a
      → value_of j (set_value i b l) ≡ ite (ℕ_discrete i j) (some b) (value_of j l)
  unfolding value_of set_value
  value_of-set_value i j b [] h = cc
  value_of-set_value i j b (e ∷ l) {a} h = ground (arith, value_of-set_value i j b l {a = a})

  pub total-remove :
      (w : A → ℕ) (i : ℕ) (a : A) (l : List (Element A))
      → value_of i l ≡ some a
      → total w (remove i l) + w a ≡ total w l
  unfolding value_of remove total
  total-remove w i a [] h = cc
  total-remove w i a (e ∷ l) h = ground (arith, total-remove w i a l)

  pub total-set_value :
      (w : A → ℕ) (i : ℕ) (a b : A) (l : List (Element A))
      → value_of i l ≡ some a
      → total w (set_value i b l) + w a ≡ total w l + w b
  unfolding value_of set_value total
  total-set_value w i a b [] h = cc
  total-set_value w i a b (e ∷ l) h = ground (arith, total-set_value w i a b l)

module _ {ℓ} {A : Type ℓ} (key : A → Key) where
  pub remove-value_of_self :
      (l : List (Element A)) (i : ℕ) → Distinct key l → value_of i (remove i l) ≡ none
  unfolding value_of remove
  remove-value_of_self [] i d = refl
  remove-value_of_self (e ∷ l) i d = ground (arith, remove-value_of_self l i d.2)

  pub id_of-remove_none :
      (i : ℕ) (j : Key) (l : List (Element A))
      → id_of key j l ≡ none
      → id_of key j (remove i l) ≡ none
  unfolding id_of remove
  id_of-remove_none i j [] h = refl
  id_of-remove_none i j (e ∷ l) h = ground (arith, id_of-remove_none i j l)

  pub remove-Distinct : (l : List (Element A)) (i : ℕ) → Distinct key l → Distinct key (remove i l)
  unfolding remove
  remove-Distinct [] i d = tt
  remove-Distinct (e ∷ l) i d = ground (
    arith,
    remove-Distinct l i d.2,
    id_of-remove_none i (key e.value) l,
    value_of-remove_none i e.id l,
  )

  -- The value of the first element with the key.
  unfoldable pub find : Key → List (Element A) → Option A
  find k [] = none
  find k (e ∷ l) = ite (key_dec (key e.value) k) (some e.value) (find k l)

  pub find-id_of-none : (k : Key) (l : List (Element A)) → id_of key k l ≡ none → find k l ≡ none
  unfolding find id_of
  find-id_of-none k [] h = refl
  find-id_of-none k (e ∷ l) h = ground (arith, find-id_of-none k l)

  pub find-value_of :
      (l : List (Element A)) (i : ℕ) (a : A)
      → Distinct key l
      → value_of i l ≡ some a
      → find (key a) l ≡ some a
  unfolding find value_of id_of
  find-value_of [] i a d h = cc
  find-value_of (e ∷ l) i a d h =
      ground (arith, find-value_of l i a d.2, id_of-value_of key l i a d.2)

  pub find-remove :
      (l : List (Element A)) (i : ℕ) (a : A) (j : Key)
      → Distinct key l
      → value_of i l ≡ some a
      → find j (remove i l) ≡ ite (key_dec (key a) j) none (find j l)
  unfolding find value_of id_of remove
  find-remove [] i a j d h = cc
  find-remove (e ∷ l) i a j d h =
      ground (arith, find-remove l i a j d.2, id_of-value_of key l i a d.2, find-id_of-none j l)

-- All identities lie below a bound, from which the next identity is taken.
module _ {ℓ} {A : Type ℓ} where
  abbrev pub Below : ℕ → List (Element A) → Type 0
  Below n [] = Unit {0}
  Below n (e ∷ l) = (e.id < n) × Below n l

  pub Below-mono : (m n : ℕ) (l : List (Element A)) → m ≤ n → Below m l → Below n l
  Below-mono m n [] h b = tt
  Below-mono m n (e ∷ l) h b = (omega arith, Below-mono m n l h b.1)

  pub remove-Below : (i n : ℕ) (l : List (Element A)) → Below n l → Below n (remove i l)
  unfolding remove
  remove-Below i n [] b = tt
  remove-Below i n (e ∷ l) b = ground (arith, remove-Below i n l b.1)

  pub value_of-Below : (i n : ℕ) (l : List (Element A)) → Below n l → n ≤ i → value_of i l ≡ none
  unfolding value_of
  value_of-Below i n [] b h = refl
  value_of-Below i n (e ∷ l) b h = ground (arith, value_of-Below i n l b.1)

  pub Below-value_of :
      (i n : ℕ) (l : List (Element A)) (a : A) → Below n l → value_of i l ≡ some a → i < n
  unfolding value_of
  Below-value_of i n [] a b h = cc
  Below-value_of i n (e ∷ l) a b h = ground (arith, Below-value_of i n l a b.1)

abbrev pub or_else {ℓ} : {A : Type ℓ} → Option A → Option A → Option A
or_else none b = b
or_else (some a) b = some a

module _ {ℓ} {A : Type ℓ} (key : A → Key) where
  pub find-key : (k : Key) (l : List (Element A)) {a : A} → find key k l ≡ some a → key a ≡ k
  unfolding find
  find-key k [] h = cc
  find-key k (e ∷ l) {a} h = ground (arith, find-key k l {a = a})

  -- Where no key stands twice, each element is found by its key.
  pub find-All :
      (l : List (Element A)) → Distinct key l → All (λ e. find key (key e.value) l ≡ some e.value) l
  unfolding find
  find-All [] d = tt
  find-All (x ∷ l) d = (
    ground arith,
    All-map (λ e. find key (key e.value) l ≡ some e.value)
        (λ e. find key (key e.value) (x ∷ l) ≡ some e.value)
        (λ e h. ground (arith, find-id_of-none key (key x.value) l)) l (find-All l d.2),
  )

  pub find-append :
      (k : Key) (l m : List (Element A))
      → find key k (l ++ m) ≡ or_else (find key k l) (find key k m)
  unfolding find
  find-append k [] m = refl
  find-append k (e ∷ l) m = ground (arith, find-append k l m)

  -- A key of the second part is no key of the first.
  pub find-append_right :
      (k : Key) (l m : List (Element A)) {a : A}
      → Distinct key (l ++ m)
      → find key k m ≡ some a
      → find key k l ≡ none
  unfolding find
  find-append_right k [] m d h = refl
  find-append_right k (e ∷ l) m {a} d h = ground (
    arith,
    find-append_right k l m {a = a} d.2 h,
    find-id_of-none key (key e.value) (l ++ m),
    find-append k l m,
  )
