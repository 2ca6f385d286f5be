-- ===== src/Go/IntMap.antt =====
-- `map[int]string`: an association list in which a key stands at most once.
use cachecore.Base.{
  ℕ, ◌≡◌, ◌≢◌, refl, List, [], ◌∷◌, Option, none, some, arith, ◌==◌, if◌then◌else◌,
}

abbrev pub IntMap {ℓ} : Type ℓ → Type ℓ
IntMap V = List (ℕ × V)

module _ {ℓ} {V : Type ℓ} where
  unfoldable pub lookup : ℕ → IntMap V → Option V
  lookup k [] = none
  lookup k ((j, v) ∷ m) = if j == k then some v else lookup k m

  -- `m[k] = v`
  unfoldable pub insert : ℕ → V → IntMap V → IntMap V
  insert k v [] = (k, v) ∷ []
  insert k v ((j, w) ∷ m) = if j == k then (k, v) ∷ m else (j, w) ∷ insert k v m

  -- `delete(m, k)`
  unfoldable pub delete : ℕ → IntMap V → IntMap V
  delete k [] = []
  delete k ((j, w) ∷ m) = if j == k then delete k m else (j, w) ∷ delete k m

  pub lookup-insert_self : (k : ℕ) (v : V) (m : IntMap V) → lookup k (insert k v m) ≡ some v
  unfolding lookup insert
  lookup-insert_self k v [] = ground arith
  lookup-insert_self k v ((i, w) ∷ m) = ground (arith, lookup-insert_self k v m)

  pub lookup-insert_ne :
      (k j : ℕ) (v : V) (m : IntMap V) → k ≢ j → lookup j (insert k v m) ≡ lookup j m
  unfolding lookup insert
  lookup-insert_ne k j v [] p = ground arith
  lookup-insert_ne k j v ((i, w) ∷ m) p = ground (arith, lookup-insert_ne k j v m p)

  -- A new key is deleted without a trace.
  pub delete-insert :
      (k : ℕ) (v : V) (m : IntMap V) → lookup k m ≡ none → delete k (insert k v m) ≡ m
  unfolding lookup insert delete
  delete-insert k v [] p = ground arith
  delete-insert k v ((i, w) ∷ m) p = ground (arith, delete-insert k v m)

  pub lookup-delete_self : (k : ℕ) (m : IntMap V) → lookup k (delete k m) ≡ none
  unfolding lookup delete
  lookup-delete_self k [] = refl
  lookup-delete_self k ((i, w) ∷ m) = ground (arith, lookup-delete_self k m)

  pub lookup-delete_ne : (k j : ℕ) (m : IntMap V) → k ≢ j → lookup j (delete k m) ≡ lookup j m
  unfolding lookup delete
  lookup-delete_ne k j [] p = refl
  lookup-delete_ne k j ((i, w) ∷ m) p = ground (arith, lookup-delete_ne k j m p)
