-- ===== src/Http/Pool.antt =====
-- http.go: `HTTPPool`, the addresses of the peers and which of them owns a key.
use cachecore.Base.{◌&&◌, not, List, [], ◌∷◌, ◌++◌, Option, none, some, ◌==◌, if◌then◌else◌, length}
use cachecore.Go.Bytes.{Bytes, Key, codes, equal}
use cachecore.Go.Map.{Map, lookup, insert}
use cachecore.Ring
use cachecore.Ring.{Ring}

-- `httpGetter`
pub record HttpGetter : Type 0 where
  pub base_url : Bytes

-- `peers` is `none` before the first `Set`.
pub record HttpPool : Type 0 where
  pub self : Key
  pub base_path : Bytes
  pub peers : Option Ring
  pub http_getters : Map HttpGetter

abbrev pub default_base_path : Bytes
default_base_path = codes "/_goCache/"

unfoldable pub new_http_pool : Key → HttpPool
new_http_pool self = record {
  self = self;
  base_path = default_base_path;
  peers = none;
  http_getters = [];
}

-- The loop of `Set`.
unfoldable pub set_loop : Bytes → List Key → Map HttpGetter → Map HttpGetter
set_loop base_path [] getters = getters
set_loop base_path (peer ∷ peers) getters =
    set_loop base_path peers (insert peer (record { base_url = peer ++ base_path }) getters)

unfoldable pub set : HttpPool → List Key → HttpPool
unfolding set_loop Ring.new Ring.add
set p peers = record p {
  peers = some (Ring.add peers (Ring.new 50 none));
  http_getters = set_loop p.base_path peers [];
}

-- What `pickPeer` returns: `false`, `true` with the `nil` that the map answers for an address that
-- it lacks, or `true` with a getter. A call on `nil` panics.
pub data Picked (A : Type 0) : Type 0 where
  no_peer : Picked A
  nil_getter : Picked A
  picked : A → Picked A

unfoldable pub pick_peer : HttpPool → Key → Picked HttpGetter
unfolding Ring.get equal
pick_peer p key = elim p.peers [
  | none ↦ no_peer
  | some ring ↦
      let peer = Ring.get ring key in
      if not (length peer == 0) && not (equal peer p.self)
      then elim (lookup peer p.http_getters) [ none ↦ nil_getter | some h ↦ picked h ]
      else no_peer
]

unfoldable pub rpc_path : HttpPool → Bytes → Bytes
rpc_path p action = p.base_path ++ action
