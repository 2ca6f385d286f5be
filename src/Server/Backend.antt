-- ===== src/Server/Backend.antt =====
-- cmd/cache-server/main.go: where values come from, for what Redis answers.
use cachecore.Base.{
  ℕ, zero, suc, ◌+◌, Bool, true, false, not, ◌&&◌, List, [], ◌∷◌, ◌++◌, Option, none, some, is_some,
  ltb, ◌==◌, if◌then◌else◌, length, map,
}
use cachecore.Errors.{not_found, Answer, ok, err}
use cachecore.Go.Bytes.{Bytes, Key, codes, equal, has_prefix}
use cachecore.Go.Map.{Map, lookup}
use cachecore.Go.Numbers.{parse_int, trim_space}
use cachecore.Go.Strconv.{itoa}
use cachecore.Server.Text.{to_lower, trim_prefix}

abbrev pub db : Map Bytes
db = (codes "Tom", codes "630") ∷ (codes "Jack", codes "589") ∷ (codes "Sam", codes "567") ∷ []

-- The order of strings.
unfoldable pub less : Bytes → Bytes → Bool
less s [] = false
less [] (c ∷ t) = true
less (b ∷ s) (c ∷ t) = if ltb b c then true else (b == c) && less s t

-- `slices.Sort`
unfoldable pub insert_key : Key → List Key → List Key
unfolding less
insert_key k [] = k ∷ []
insert_key k (j ∷ keys) = if less j k then j ∷ insert_key k keys else k ∷ j ∷ keys

unfoldable pub sort_keys : List Key → List Key
unfolding insert_key
sort_keys [] = []
sort_keys (k ∷ keys) = insert_key k (sort_keys keys)

-- `"key"+strconv.Itoa(i)` for `n` numbers from `i` on.
unfoldable pub numbered_keys : ℕ → ℕ → List Key
unfolding itoa
numbered_keys zero i = []
numbered_keys (suc n) i = (codes "key" ++ itoa i) ∷ numbered_keys n (i + 1)

unfoldable pub default_warmup_keys : List Key
unfolding sort_keys numbered_keys
default_warmup_keys = sort_keys (map (λ entry. entry.0) db) ++ numbered_keys 101 0

unfoldable pub synthetic_value : Key → Option Bytes
unfolding has_prefix trim_prefix parse_int
synthetic_value key = elim (lookup key db) [
  | some v ↦ some v
  | none ↦
      if has_prefix key (codes "key") && ltb 3 (length key)
      then (let raw = trim_prefix key (codes "key") in
          if is_some (parse_int raw) then some raw else none)
      else none
]

unfoldable pub normalize_backend : Bytes → Bytes
unfolding to_lower trim_space
normalize_backend backend =
    let b = to_lower (trim_space backend) in if length b == 0 then codes "demo" else b

unfoldable pub get_synthetic_value : Key → Answer Bytes
unfolding synthetic_value
get_synthetic_value key = elim (synthetic_value key) [ some v ↦ ok v | none ↦ err not_found ]

-- `getDemoValue`; `redis` is the value that Redis has, `none` for its errors. What it is told to set
-- is the second result.
unfoldable pub get_demo_value : Option Bytes → Key → Answer Bytes × Option Bytes
get_demo_value (some v) key = (ok v, none)
get_demo_value none key = elim (lookup key db) [
  | some v ↦ (ok v, some v)
  | none ↦ (err not_found, none)
]

-- The function of `newGroupGetter`.
unfoldable pub group_getter : Bytes → Option Bytes → Key → Answer Bytes
unfolding get_synthetic_value get_demo_value equal
group_getter backend redis key =
    if equal backend (codes "synthetic")
    then get_synthetic_value key
    else (if not (equal backend (codes "demo"))
        then err not_found
        else (get_demo_value redis key).0)
