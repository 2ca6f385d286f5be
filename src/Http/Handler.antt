-- ===== src/Http/Handler.antt =====
-- http.go: `ServeHTTP`, over the registry of groups, and the codes of its responses.
use cachecore.Base.{
  ℕ, Bool, true, false, not, ◌&&◌, ◌||◌, [], ◌++◌, Option, none, some, ◌>>=◌, if◌then◌else◌,
}
use cachecore.Errors.{Error, not_found, filter_not_found, Answer, ok, err, error_text, filter_text}
use cachecore.Filter.{FilterOps}
use cachecore.Go.Bytes.{Bytes, codes, equal, contains}
use cachecore.Go.Int64
use cachecore.Go.Int64.{Int64}
use cachecore.Go.Map.{Map, lookup, insert}
use cachecore.Go.Numbers.{format_int}
use cachecore.Group
use cachecore.Group.{CacheOps, Group, Course, increment_locally, invalidate_local}
use cachecore.Http.Messages.{Request, ProtoOps, Reply, proto_reply, http_error}
use cachecore.Http.Pool.{Picked}
use cachecore.View.{byte_slice}

-- The registry of groups, and `Stats.PeerHTTPRequests`.
pub record Node (C S : Type 0) : Type 0 where
  pub groups : Map (Group C S)
  pub peer_http_requests : ℕ

-- What a group is told from outside while it serves a request: `failure` is the error of the context of an
-- Increment, `course` how a Get goes on.
pub record World : Type 0 where
  pub failure : Option Error
  pub course : Course
  pub peer : Picked (Answer Bytes)
  pub fetched : Answer Bytes
  pub backend : Option (Answer Int64)
  pub random : ℕ
  pub now : ℕ
  pub later : ℕ

abbrev pub get_path : Bytes
get_path = codes "/_goCache/get"

abbrev pub increment_path : Bytes
increment_path = codes "/_goCache/increment"

abbrev pub invalidate_path : Bytes
invalidate_path = codes "/_goCache/invalidate"

unfoldable pub classify_peer_get_error : Option Error → Int64 × Bool
unfolding error_text equal contains
classify_peer_get_error none = (0, false)
classify_peer_get_error (some not_found) = (404, true)
classify_peer_get_error (some (filter_not_found key)) = (404, false)
classify_peer_get_error (some e) =
    let msg = error_text e in
    if equal msg filter_text || contains msg filter_text then (404, false) else (500, false)

unfoldable pub write_proto_response :
    {W : Type 0} ⦃p : ProtoOps W⦄ → Int64 → Bytes → Bytes → Bool → Reply W
write_proto_response ⦃p⦄ code err_msg value absent =
    elim (p.marshal_response
      (record { code = code; err_msg = err_msg; value = value; not_found = absent })) [
        | err e ↦ http_error 500 (codes "failed to marshal response")
        | ok data_bytes ↦ proto_reply data_bytes
      ]

module _ {C S W : Type 0} ⦃c : CacheOps C⦄ ⦃o : FilterOps S⦄ ⦃p : ProtoOps W⦄ where
  unfoldable pub serve_increment : Group C S → Request → World → Option (Group C S × Reply W)
  unfolding increment_locally error_text format_int write_proto_response
  serve_increment g req w = do
    done ← increment_locally g req.key req.delta w.failure w.backend w.random w.now w.later
    some (
      done.0,
      elim done.1 [
        | err e ↦ write_proto_response 500 (error_text e) [] false
        | ok next ↦ write_proto_response 0 [] (format_int next) false
      ],
    )

  unfoldable pub serve_get : Group C S → Request → World → Option (Group C S × Reply W)
  unfolding Group.get error_text classify_peer_get_error write_proto_response byte_slice
  serve_get g req w = do
    done ← Group.get g req.key w.course w.peer w.fetched w.random w.now
    some (
      done.0,
      elim done.1 [
        | err e ↦
            let class = classify_peer_get_error (some e) in
            write_proto_response class.0 (error_text e) [] class.1
        | ok view ↦ write_proto_response 0 [] (byte_slice view) false
      ],
    )

  unfoldable pub serve_invalidate : Group C S → Request → Option (Group C S × Reply W)
  unfolding invalidate_local write_proto_response
  serve_invalidate g req = do
    g' ← invalidate_local g req.key
    some (g', write_proto_response 0 [] [] false)

  -- From the lookup of the group on.
  unfoldable pub serve_request : Node C S → Bytes → Request → World → Option (Node C S × Reply W)
  unfolding serve_increment serve_get serve_invalidate write_proto_response equal
  serve_request n path req w = elim (lookup req.group n.groups) [
    | none ↦
        some
          (n, write_proto_response 404 (codes "group " ++ req.group ++ codes " not found") [] false)
    | some g ↦ do
      done ←
          if equal path invalidate_path
          then serve_invalidate g req
          else (if equal path increment_path then serve_increment g req w else serve_get g req w)
      some (record n { groups = insert req.group done.0 n.groups }, done.1)
  ]

  -- `body` is what `io.ReadAll` returns.
  unfoldable pub serve_http :
      Node C S → Bytes → Bytes → Answer W → World → Option (Node C S × Reply W)
  unfolding serve_request write_proto_response equal
  serve_http n path method body w =
      let served : Node C S = record n { peer_http_requests = Int64.add n.peer_http_requests 1 } in
      if not (equal path get_path)
        && not (equal path invalidate_path)
        && not (equal path increment_path)
      then some (served, write_proto_response 400 (codes "bad request path") [] false)
      else (if not (equal method (codes "POST"))
          then some (served, write_proto_response 405 (codes "method not allowed") [] false)
          else elim body [
            | err e ↦ some (served, write_proto_response 400 (codes "read body failed") [] false)
            | ok bytes ↦ elim (p.unmarshal_request bytes) [
              | err e ↦
                  some (
                    served,
                    write_proto_response 400 (codes "failed to unmarshal request") [] false,
                  )
              | ok req ↦ serve_request served path req w
            ]
          ])
