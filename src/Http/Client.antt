-- ===== src/Http/Client.antt =====
-- http.go: the client side, over a transport `send` that answers for an endpoint and a body.
use cachecore.Base.{
  not, ◌&&◌, List, [], ◌∷◌, ◌++◌, is_some, Option, none, some, ◌==◌, if◌then◌else◌,
}
use cachecore.Errors.{Error, not_found, server_error, other, Answer, ok, err, error_text}
use cachecore.Go.Bytes.{Bytes, Key, codes, equal}
use cachecore.Go.Map.{Map}
use cachecore.Http.Messages.{
  Request, Response, ProtoOps, Exchange, uncreated, unperformed, answered,
}
use cachecore.Http.Pool.{HttpGetter, HttpPool}

-- `fmt.Errorf("...: %v", err)`
unfoldable pub failed_to : Bytes → Error → Error
failed_to text e = other (text ++ error_text e)

-- The last two tests of `doProtoRequest`.
unfoldable pub check_response : Response → Answer Response
check_response out =
    if out.not_found
    then err not_found
    else (if not (out.code == 0) then err (server_error out.code out.err_msg) else ok out)

module _ {W : Type 0} ⦃p : ProtoOps W⦄ (send : Bytes → W → Exchange W) where
  unfoldable pub read_exchange : Exchange W → Answer Response
  unfolding failed_to check_response
  read_exchange (uncreated e) = err (failed_to (codes "failed to create request: ") e)
  read_exchange (unperformed e) = err (failed_to (codes "failed to perform request: ") e)
  read_exchange (answered status text content) =
      if not (status == 200)
      then err (other (codes "server returned non-OK status: " ++ text))
      else elim content [
        | err e ↦ err (failed_to (codes "failed to read response body: ") e)
        | ok bytes ↦ elim (p.unmarshal_response bytes) [
          | err e ↦ err (failed_to (codes "decoding response body: ") e)
          | ok out ↦ check_response out
        ]
      ]

  unfoldable pub do_proto_request : HttpGetter → Bytes → Request → Answer Response
  unfolding read_exchange failed_to
  do_proto_request h action request = elim (p.marshal_request request) [
    | err e ↦ err (failed_to (codes "failed to marshal request: ") e)
    | ok body ↦ read_exchange (send (h.base_url ++ action) body)
  ]

  -- `Get`, `Increment` and `Invalidate` of `httpGetter`.
  unfoldable pub get : HttpGetter → Request → Answer Response
  unfolding do_proto_request
  get h request = do_proto_request h (codes "get") request

  unfoldable pub increment : HttpGetter → Request → Answer Response
  unfolding do_proto_request
  increment h request = do_proto_request h (codes "increment") request

  unfoldable pub invalidate : HttpGetter → Request → Option Error
  unfolding do_proto_request
  invalidate h request = elim (do_proto_request h (codes "invalidate") request) [
    | ok out ↦ none
    | err e ↦ some e
  ]

  -- The second loop of `broadcastInvalidate`: the getters that were called, and the first error.
  unfoldable pub invalidate_loop :
      List HttpGetter → Request → Option Error → List HttpGetter × Option Error
  unfolding invalidate
  invalidate_loop [] request first_err = ([], first_err)
  invalidate_loop (getter ∷ getters) request first_err =
      let failure = invalidate getter request in
      let first = if is_some failure && not (is_some first_err) then failure else first_err in
      let rest = invalidate_loop getters request first in (getter ∷ rest.0, rest.1)

-- The first loop of `broadcastInvalidate`, in whatever order the map is read.
unfoldable pub other_getters : Key → Map HttpGetter → List HttpGetter
unfolding equal
other_getters self [] = []
other_getters self ((peer, getter) ∷ getters) =
    let others = other_getters self getters in if equal peer self then others else getter ∷ others

unfoldable pub broadcast_invalidate :
    {W : Type 0} ⦃p : ProtoOps W⦄
    → (Bytes → W → Exchange W)
    → HttpPool
    → Request
    → List HttpGetter × Option Error
unfolding invalidate_loop other_getters
broadcast_invalidate send p request =
    invalidate_loop send (other_getters p.self p.http_getters) request none
