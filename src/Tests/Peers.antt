-- ===== src/Tests/Peers.antt =====
-- Two nodes and their pools, and the theorems about http.go at concrete inputs.
use cachecore.Base.{
  subst, ap, ◌<◌, List, Any, All, ◌⊎◌, ℕ, ◌≡◌, ◌≢◌, refl, [], ◌∷◌, none, some, arith,
}
use cachecore.Bloom.{BloomFilter}
use cachecore.Errors.{other, Answer, ok, err}
use cachecore.Filter.Admission.{bloom_FilterOps}
use cachecore.Go.Bytes.{Bytes, Key, codes, key_dec}
use cachecore.Go.Int64
use cachecore.Go.Int64.{slt, modulus}
use cachecore.Slru
use cachecore.Group
use cachecore.Group.{Group, in_time, increment_locally, invalidate_local, increment_from_peer}
use cachecore.Group.Accounts.{CountsLook, get-CountsLook}
use cachecore.Group.Caches.{store_CacheOps}
use cachecore.Go.Map.{lookup}
use cachecore.Http.Client
use cachecore.Http.Client.{broadcast_invalidate}
use cachecore.Http.Statuses.{value_of, over_wire}
use cachecore.Ring
use cachecore.Http.Broadcast.{IsGetter, broadcast_invalidate-asks}
use cachecore.Http.Calls.{get_over_http, increment_over_http, invalidate_over_http}
use cachecore.Http.Choice.{getter_of, ring_of, pick_peer-settles}
use cachecore.Http.Handler.{Node, World, get_path, increment_path, invalidate_path, serve_http}
use cachecore.Http.Messages.{Request, Response, ProtoOps, Reply, Exchange}
use cachecore.Http.Pool.{
  HttpGetter, no_peer, picked, pick_peer, set, new_http_pool, default_base_path,
}
use cachecore.Http.Wire.{IsCodec, deliver, post}
use cachecore.Store
use cachecore.Store.{Store}
use cachecore.Tests.{a, b, v12, thousandths}
use cachecore.Tests.Groups.{group}

-- A codec that writes a message as it is.
pub data Plain : Type 0 where
  plain_request : Request → Plain
  plain_response : Response → Plain

abbrev read_request : Plain → Answer Request
read_request (plain_request r) = ok r
read_request (plain_response r) = err (other (codes "a response"))

abbrev read_response : Plain → Answer Response
read_response (plain_request r) = err (other (codes "a request"))
read_response (plain_response r) = ok r

instance abbrev pub plain_ProtoOps : ProtoOps Plain
plain_ProtoOps = record {
  marshal_request = λ r. ok (plain_request r);
  unmarshal_request = read_request;
  marshal_response = λ r. ok (plain_response r);
  unmarshal_response = read_response;
}

abbrev plain_IsCodec : IsCodec plain_ProtoOps
plain_IsCodec = record {
  IsText = λ text. Unit;
  empty_IsText = tt;
  request_trip = λ r g k d. (plain_request r, refl, refl);
  response_trip = λ r c m. (plain_response r, refl, refl);
}

abbrev node : Node (Store ℕ) BloomFilter
node = record { groups = (b, group) ∷ []; peer_http_requests = 0 }

abbrev world : World
world = record {
  failure = none;
  course = in_time;
  peer = no_peer;
  fetched = ok v12.b;
  backend = none;
  random = 0;
  now = 5;
  later = 6;
}

abbrev getter : HttpGetter
getter = record { base_url = codes "http://b/_goCache/" }

abbrev ask : Request
ask = record { group = b; key = a; delta = 7 }

-- A network in which every request reaches the handler of `node` at the given path.
abbrev pub network : Bytes → Bytes → Plain → Exchange Plain
network path endpoint body = deliver (serve_http node path post (ok body) world)

registered_b : lookup b node.groups ≡ some group
unfolding lookup key_dec
registered_b = refl

abbrev after_get : Group (Store ℕ) BloomFilter
after_get = elim (Group.get group a in_time no_peer (ok v12.b) 0 5) [ none ↦ group | some d ↦ d.0 ]

gets_12 : Group.get group a in_time no_peer (ok v12.b) 0 5 ≡ some (after_get, ok v12)
unfolding Group.get store_CacheOps Store.get Store.new slt Store.add
gets_12 = refl

get-CountsLook_example : CountsLook group after_get in_time
get-CountsLook_example =
    get-CountsLook group after_get a in_time no_peer (ok v12.b) 0 5 (ok v12) refl gets_12

get_over_http_example : value_of (Client.get (network get_path) getter ask) ≡ ok v12.b
unfolding over_wire
get_over_http_example =
    get_over_http plain_IsCodec (network get_path) getter node world ask group after_get (ok v12) tt
      tt (omega arith) (λ e q. tt) registered_b gets_12 (λ body. refl)

abbrev after_increment : Group (Store ℕ) BloomFilter
after_increment = elim (increment_locally group a 7 none none 0 5 6) [ none ↦ group | some d ↦ d.0 ]

counts_7 : increment_locally group a 7 none none 0 5 6 ≡ some (after_increment, ok 7)
unfolding increment_locally store_CacheOps Store.increment Store.local_get Store.new Slru.get lookup
    Slru.new Int64.add
counts_7 = refl

abbrev number_in : Answer ℕ → ℕ
number_in (ok n) = n
number_in (err e) = 0

increment_over_http_example : increment_from_peer (network increment_path) b getter a 7 ≡ ok 7
increment_over_http_example =
    increment_over_http plain_IsCodec (network increment_path) getter node world ask group
      after_increment (ok 7) tt tt (omega arith) (λ e q. tt)
      (λ n q. subst (λ m. m < modulus) (ap number_in q) (omega arith)) registered_b counts_7
      (λ body. refl)

abbrev after_invalidate : Group (Store ℕ) BloomFilter
after_invalidate = elim (invalidate_local group a) [ none ↦ group | some g ↦ g ]

drops_a : invalidate_local group a ≡ some after_invalidate
unfolding invalidate_local store_CacheOps
drops_a = refl

invalidate_over_http_example :
    (Client.invalidate (network invalidate_path) getter ask ≡ none)
    × ((body : Plain) × (m : Node (Store ℕ) BloomFilter) × (reply : Reply Plain)
        × (plain_ProtoOps.marshal_request ask ≡ ok body)
        × (serve_http node invalidate_path post (ok body) world ≡ some (m, reply))
        × (lookup b m.groups ≡ some after_invalidate))
invalidate_over_http_example =
    invalidate_over_http plain_IsCodec (network invalidate_path) getter node world ask group
      after_invalidate tt tt (omega arith) registered_b drops_a (λ body. refl)

abbrev addresses : List Key
addresses = codes "http://a" ∷ codes "http://b" ∷ []

pick_peer-settles_example :
    let owner = Ring.get (ring_of addresses) a in
    ((owner ≡ codes "http://a")
      × (pick_peer (set (new_http_pool (codes "http://a")) addresses) a ≡ no_peer))
    ⊎ ((owner ≢ codes "http://a")
        × Any (λ x. x ≡ owner) addresses
        × (pick_peer (set (new_http_pool (codes "http://a")) addresses) a
            ≡ picked (getter_of default_base_path owner))
        × (pick_peer (set (new_http_pool owner) addresses) a ≡ no_peer))
pick_peer-settles_example =
    pick_peer-settles (codes "http://a") (codes "http://a") (codes "http://b" ∷ []) a
      (omega arith, (omega arith, tt))

broadcast_invalidate-asks_example :
    let done =
      broadcast_invalidate
        (network invalidate_path)
        (set (new_http_pool (codes "http://a")) addresses)
        ask in
    ((x : Key)
      → Any (λ y. y ≡ x) addresses
      → x ≢ codes "http://a"
      → Any (λ h. h ≡ getter_of default_base_path x) done.0)
    × All (λ h. (x : Key) × (x ≢ codes "http://a") × IsGetter addresses (x, h)) done.0
    × (done.1 ≡ none → All (λ h. Client.invalidate (network invalidate_path) h ask ≡ none) done.0)
broadcast_invalidate-asks_example =
    broadcast_invalidate-asks (network invalidate_path) (codes "http://a") addresses ask
