-- ===== src/Server/Text.antt =====
-- cmd/cache-server/main.go: lists of words and addresses.
use cachecore.Base.{◌+◌, not, ◌&&◌, ◌||◌, List, [], ◌∷◌, ◌++◌, leb, ◌==◌, if◌then◌else◌, length}
use cachecore.Go.Bytes.{Bytes, Key, codes, has_prefix}
use cachecore.Go.Numbers.{trim_space}

-- `strings.ToLower`, of the letters of ASCII.
unfoldable pub to_lower : Bytes → Bytes
to_lower [] = []
to_lower (b ∷ s) = (if leb b'A' b && leb b b'Z' then b + 32 else b) ∷ to_lower s

-- `strings.Split(s, ",")`: the parts, of which there is at least one, from a first part on.
unfoldable pub split_from : Bytes → Bytes → List Bytes
split_from part [] = part ∷ []
split_from part (b ∷ s) =
    let longer = split_from (part ++ (b ∷ [])) s in
    let next = split_from [] s in if b == b',' then part ∷ next else longer

unfoldable pub split : Bytes → List Bytes
unfolding split_from
split s = split_from [] s

-- The loop of `splitCSV`.
unfoldable pub trim_each : List Bytes → List Bytes
unfolding trim_space
trim_each [] = []
trim_each (part ∷ parts) =
    let rest = trim_each parts in
    let trimmed = trim_space part in if length trimmed == 0 then rest else trimmed ∷ rest

unfoldable pub split_csv : Bytes → List Bytes
unfolding split trim_each trim_space
split_csv value = if length (trim_space value) == 0 then [] else trim_each (split value)

-- `strings.TrimPrefix(s, prefix)`
unfoldable pub cut : Bytes → Bytes → Bytes
cut s [] = s
cut [] (p ∷ prefix) = []
cut (b ∷ s) (p ∷ prefix) = cut s prefix

unfoldable pub trim_prefix : Bytes → Bytes → Bytes
unfolding cut has_prefix
trim_prefix s prefix = if has_prefix s prefix then cut s prefix else s

unfoldable pub normalize_http_addr : Bytes → Bytes
unfolding trim_space trim_prefix has_prefix
normalize_http_addr raw =
    let s = trim_space raw in
    if length s == 0
    then []
    else (if has_prefix s (codes "http://") || has_prefix s (codes "https://")
        then codes "http://" ++ trim_prefix (trim_prefix s (codes "http://")) (codes "https://")
        else codes "http://" ++ s)

-- The loop of `parsePeerAddrs`.
unfoldable pub normalize_each : List Bytes → List Key
unfolding normalize_http_addr
normalize_each [] = []
normalize_each (part ∷ parts) =
    let rest = normalize_each parts in
    let normalized = normalize_http_addr part in
    if not (length normalized == 0) then normalized ∷ rest else rest

unfoldable pub parse_peer_addrs : Bytes → List Key
unfolding split_csv normalize_each
parse_peer_addrs csv = normalize_each (split_csv csv)
