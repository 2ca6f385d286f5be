-- ===== src/Server/Setup.antt =====
-- cmd/cache-server/main.go: the options of the group, and the addresses of the pool.
use cachecore.Base.{
  ℕ, Bool, true, false, not, ◌||◌, List, [], ◌∷◌, ◌++◌, Option, none, some, ◌==◌, if◌then◌else◌,
  length, ◌%◌,
}
use cachecore.Bloom
use cachecore.Bloom.{BloomFilter}
use cachecore.Config.{
  Setting, on_evicted_setting, incrementer_setting, filter_setting, filter_refresh_setting,
  sharded_cache_setting, slru_setting,
}
use cachecore.Go.Bytes.{Bytes, Key, codes, equal}
use cachecore.Go.Hash.{modulus32}
use cachecore.Go.Int64.{Int64, slt}
use cachecore.Go.Strconv.{itoa}
use cachecore.Server.Text.{to_lower, normalize_http_addr, parse_peer_addrs}

abbrev pub Settings : Type 0 → Type 0 → Type 0
Settings F C = List (Option (Setting F C BloomFilter))

module _ {F C : Type 0} (four_fifths : F) where
  -- `appendStrategyOptions`; `none` is the end of the program.
  unfoldable pub append_strategy_options : Settings F C → Bytes → ℕ → Option (Settings F C)
  unfolding to_lower equal
  append_strategy_options opts strategy shards =
      let s = to_lower strategy in
      if equal s (codes "sharded")
      then some (opts ++ (some (sharded_cache_setting (shards % modulus32)) ∷ []))
      else (if equal s (codes "unsharded")
          then some opts
          else (if equal s (codes "slru")
              then some (opts ++ (some (slru_setting four_fifths) ∷ []))
              else (if equal s (codes "sharded-slru")
                  then some (
                      opts
                      ++ (some (sharded_cache_setting (shards % modulus32))
                          ∷ some (slru_setting four_fifths)
                          ∷ []))
                  else none)))

  unfoldable pub create_group_options :
      Bytes → ℕ → Bool → Int64 → Int64 → Int64 → Bytes → Bool → Option (Settings F C)
  unfolding append_strategy_options equal Bloom.new
  create_group_options strategy shards enable_filter filter_size filter_hashes filter_refresh
        backend eviction_log =
      let evictions : Settings F C =
        if eviction_log then some (on_evicted_setting true) ∷ [] else [] in
      let increments : Settings F C =
        if not (equal backend (codes "synthetic"))
        then some (incrementer_setting true) ∷ []
        else [] in
      let refresh : Settings F C =
        if slt 0 filter_refresh then some (filter_refresh_setting filter_refresh) ∷ [] else [] in
      let filters : Settings F C =
        if enable_filter
        then some (filter_setting (some (Bloom.new filter_size filter_hashes))) ∷ refresh
        else [] in
      append_strategy_options (evictions ++ increments ++ filters) strategy shards

-- `slices.Contains(addrs, addr)`
unfoldable pub is_in : Key → List Key → Bool
unfolding equal
is_in addr [] = false
is_in addr (a ∷ addrs) = equal a addr || is_in addr addrs

unfoldable pub self_address : Bytes → ℕ → Key
unfolding normalize_http_addr itoa
self_address self_addr port =
    if length self_addr == 0
    then codes "http://localhost:" ++ itoa port
    else normalize_http_addr self_addr

-- The values of `addrMap`, which come in any order.
abbrev pub local_addresses : List Key
local_addresses =
    codes "http://localhost:8001"
    ∷ codes "http://localhost:8002"
    ∷ codes "http://localhost:8003"
    ∷ []

-- The addresses of the pool, from the flags.
unfoldable pub pool_addresses : Bytes → Key → List Key
unfolding parse_peer_addrs is_in
pool_addresses peers_csv self_addr =
    let parsed = parse_peer_addrs peers_csv in
    let addrs = if length parsed == 0 then local_addresses else parsed in
    if not (is_in self_addr addrs) then addrs ++ (self_addr ∷ []) else addrs
