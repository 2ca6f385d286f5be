-- ===== src/Go/Map.antt =====
-- `map[string]T`: an association list in which a key stands at most once.
use cachecore.Base.{
  ◌≡◌, refl, ite, List, [], ◌∷◌, Option, none, some, arith, ◌≢◌, ◌∙◌, if_pos, if_neg,
}
use cachecore.Go.Bytes.{Key, key_dec}

abbrev pub Map {ℓ} : Type ℓ → Type ℓ
Map V = List (Key × V)

module _ {ℓ} {V : Type ℓ} where
  unfoldable pub lookup : Key → Map V → Option V
  lookup k [] = none
  lookup k ((j, v) ∷ m) = ite (key_dec j k) (some v) (lookup k m)

  -- `m[k] = v`
  unfoldable pub insert : Key → V → Map V → Map V
  insert k v [] = (k, v) ∷ []
  insert k v ((j, w) ∷ m) = ite (key_dec j k) ((k, v) ∷ m) ((j, w) ∷ insert k v m)

  -- `delete(m, k)`
  unfoldable pub delete : Key → Map V → Map V
  delete k [] = []
  delete k ((j, w) ∷ m) = ite (key_dec j k) (delete k m) ((j, w) ∷ delete k m)

  pub lookup-insert :
      (k j : Key) (v : V) (m : Map V)
      → lookup j (insert k v m) ≡ ite (key_dec k j) (some v) (lookup j m)
  unfolding lookup insert
  lookup-insert k j v [] = refl
  lookup-insert k j v ((i, w) ∷ m) = ground (arith, lookup-insert k j v m)

  pub lookup-delete :
      (k j : Key) (m : Map V) → lookup j (delete k m) ≡ ite (key_dec k j) none (lookup j m)
  unfolding lookup delete
  lookup-delete k j [] = ground arith
  lookup-delete k j ((i, w) ∷ m) = ground (arith, lookup-delete k j m)

  pub lookup-insert_eq : (k j : Key) (v : V) (m : Map V) → k ≡ j → lookup j (insert k v m) ≡ some v
  lookup-insert_eq k j v m e = lookup-insert k j v m ∙ if_pos (key_dec k j) e (some v) (lookup j m)

  pub lookup-insert_ne :
      (k j : Key) (v : V) (m : Map V) → k ≢ j → lookup j (insert k v m) ≡ lookup j m
  lookup-insert_ne k j v m p = lookup-insert k j v m ∙ if_neg (key_dec k j) p (some v) (lookup j m)

  pub lookup-delete_eq : (k j : Key) (m : Map V) → k ≡ j → lookup j (delete k m) ≡ none
  lookup-delete_eq k j m e = lookup-delete k j m ∙ if_pos (key_dec k j) e none (lookup j m)

  pub lookup-delete_ne : (k j : Key) (m : Map V) → k ≢ j → lookup j (delete k m) ≡ lookup j m
  lookup-delete_ne k j m p = lookup-delete k j m ∙ if_neg (key_dec k j) p none (lookup j m)
