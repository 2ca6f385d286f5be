-- ===== src/Http/Wire.antt =====
-- Calls between two nodes: what a client makes of what the group of the other node answers.
use cachecore.Base.{◌<◌, ◌^◌, ◌≡◌, refl, Bool, [], Option, none, some, ◌>>=◌}
use cachecore.Errors.{other, ok, err}
use cachecore.Filter.{FilterOps}
use cachecore.Go.Bytes.{Bytes, codes, equal, key_dec}
use cachecore.Go.Int64
use cachecore.Go.Int64.{Int64, modulus}
use cachecore.Go.Map.{lookup, insert}
use cachecore.Group.{CacheOps, Group}
use cachecore.Http.Client.{read_exchange, check_response}
use cachecore.Http.Handler.{
  Node, World, get_path, increment_path, invalidate_path, write_proto_response, serve_increment,
  serve_get, serve_invalidate, serve_request, serve_http,
}
use cachecore.Http.Messages.{
  Request, Response, ProtoOps, Reply, proto_reply, http_error, Exchange, unperformed, answered,
}

-- What net/http makes of a reply, and of a handler that does not return.
unfoldable pub deliver : {N W : Type 0} → Option (N × Reply W) → Exchange W
deliver none = unperformed (other (codes "context deadline exceeded"))
deliver (some (n, proto_reply body)) = answered 200 (codes "200 OK") (ok body)
deliver (some (n, http_error status text)) = answered status text (err (other text))

-- The library reads back what it wrote, for messages whose strings are UTF-8, as `IsText` says, and
-- whose codes fit.
pub record IsCodec {W : Type 0} (p : ProtoOps W) : Type 1 where
  pub IsText : Bytes → Type 0
  pub empty_IsText : IsText []
  pub request_trip :
      (r : Request)
      → IsText r.group
      → IsText r.key
      → r.delta < modulus
      → (w : W) × (p.marshal_request r ≡ ok w) × (p.unmarshal_request w ≡ ok r)
  pub response_trip :
      (r : Response)
      → r.code < 2 ^ 31
      → IsText r.err_msg
      → (w : W) × (p.marshal_response r ≡ ok w) × (p.unmarshal_response w ≡ ok r)

module _ {W : Type 0} ⦃p : ProtoOps W⦄ (k : IsCodec p) (send : Bytes → W → Exchange W) where
  -- A response that is written arrives as it is.
  pub read-write :
      {N : Type 0} (n : N) (code : Int64) (msg value : Bytes) (absent : Bool)
      → code < 2 ^ 31
      → k.IsText msg
      → read_exchange send (deliver (some (n, write_proto_response code msg value absent)))
        ≡ check_response (record { code = code; err_msg = msg; value = value; not_found = absent })
  unfolding read_exchange deliver write_proto_response
  read-write n code msg value absent q t =
      let (w, e, f) =
        k.response_trip (record { code = code; err_msg = msg; value = value; not_found = absent }) q
          t in
      rw (write_proto_response, e, f) refl

abbrev pub post : Bytes
post = codes "POST"

-- How the handler counts its calls.
abbrev pub requested : {C S : Type 0} → Node C S → Node C S
requested n = record n { peer_http_requests = Int64.add n.peer_http_requests 1 }

module _ {C S W : Type 0} ⦃c : CacheOps C⦄ ⦃o : FilterOps S⦄ ⦃p : ProtoOps W⦄ where
  abbrev pub registered : Node C S → Request → Group C S × Reply W → Option (Node C S × Reply W)
  registered n req done =
      some (record (requested n) { groups = insert req.group done.0 n.groups }, done.1)

  pub serve_http-get :
      (n : Node C S) (w : World) (req : Request) (g : Group C S) (body : W)
      → p.unmarshal_request body ≡ ok req
      → lookup req.group n.groups ≡ some g
      → serve_http n get_path post (ok body) w ≡ (serve_get g req w >>= registered n req)
  unfolding serve_http serve_request equal key_dec
  serve_http-get n w req g body e l = rw (e, serve_request, l) refl

  pub serve_http-increment :
      (n : Node C S) (w : World) (req : Request) (g : Group C S) (body : W)
      → p.unmarshal_request body ≡ ok req
      → lookup req.group n.groups ≡ some g
      → serve_http n increment_path post (ok body) w
        ≡ (serve_increment g req w >>= registered n req)
  unfolding serve_http serve_request equal key_dec
  serve_http-increment n w req g body e l = rw (e, serve_request, l) refl

  pub serve_http-invalidate :
      (n : Node C S) (w : World) (req : Request) (g : Group C S) (body : W)
      → p.unmarshal_request body ≡ ok req
      → lookup req.group n.groups ≡ some g
      → serve_http n invalidate_path post (ok body) w
        ≡ (serve_invalidate g req >>= registered n req)
  unfolding serve_http serve_request equal key_dec
  serve_http-invalidate n w req g body e l = rw (e, serve_request, l) refl
