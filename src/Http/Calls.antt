-- ===== src/Http/Calls.antt =====
-- Calls between two nodes, from the request of the client to the answer that it returns.
use cachecore.Base.{◌<◌, ◌≡◌, refl, ap, ◌∙◌, false, [], ◌++◌, Option, none, some, ◌>>=◌, arith}
use cachecore.Errors.{Error, non_numeric, server_error, Answer, ok, err, error_text}
use cachecore.Filter.{FilterOps}
use cachecore.Go.Bytes.{Bytes, codes}
use cachecore.Go.Int64.{Int64, modulus}
use cachecore.Go.Map.{lookup, lookup-insert_eq}
use cachecore.Go.Numbers.{format_int}
use cachecore.Go.Numbers.Printing.{parse_trim-format_int}
use cachecore.Group
use cachecore.Group.{CacheOps, Group, increment_locally, invalidate_local, increment_from_peer}
use cachecore.Http.Client
use cachecore.Http.Client.{do_proto_request, read_exchange, check_response}
use cachecore.Http.Handler.{
  Node, World, get_path, increment_path, invalidate_path, write_proto_response, serve_increment,
  serve_get, serve_invalidate, serve_http,
}
use cachecore.Http.Messages.{Request, Response, ProtoOps, Reply, Exchange}
use cachecore.Http.Pool.{HttpGetter}
use cachecore.Http.Wire.{
  deliver, IsCodec, read-write, post, registered, serve_http-get, serve_http-increment,
  serve_http-invalidate,
}
use cachecore.Store.{parse_numeric_value}
use cachecore.View.{ByteView, byte_slice}
use cachecore.Http.Statuses.{over_wire, value_of, get_reply, read-get_reply}

-- What `ServeHTTP` writes for an answer of `incrementLocally`.
unfoldable increment_reply : {W : Type 0} ⦃p : ProtoOps W⦄ → Answer Int64 → Reply W
increment_reply (ok next) = write_proto_response 0 [] (format_int next) false
increment_reply (err e) = write_proto_response 500 (error_text e) [] false

-- What a client makes of an answer of `incrementLocally`.
abbrev pub counted_over_wire : Answer Int64 → Answer Int64
counted_over_wire (ok next) = ok next
counted_over_wire (err e) = err (server_error 500 (error_text e))

-- The end of `incrementFromPeer`.
abbrev parsed : Answer Response → Answer Int64
parsed (err e) = err e
parsed (ok out) = elim (parse_numeric_value out.value) [ none ↦ err non_numeric | some n ↦ ok n ]

-- The end of `Invalidate`.
abbrev failure_of : Answer Response → Option Error
failure_of (ok out) = none
failure_of (err e) = some e

module _ {W : Type 0} ⦃p : ProtoOps W⦄ (send : Bytes → W → Exchange W) where
  do_proto_request-sent :
      (h : HttpGetter) (action : Bytes) (req : Request) (body : W)
      → p.marshal_request req ≡ ok body
      → do_proto_request send h action req ≡ read_exchange send (send (h.base_url ++ action) body)
  unfolding do_proto_request
  do_proto_request-sent h action req body e = rw (do_proto_request, e) refl

  read-increment_reply :
      {N : Type 0} (k : IsCodec p) (n : N) (a : Answer Int64)
      → ((e : Error) → a ≡ err e → k.IsText (error_text e))
      → ((next : Int64) → a ≡ ok next → next < modulus)
      → parsed (read_exchange send (deliver (some (n, increment_reply a)))) ≡ counted_over_wire a
  unfolding increment_reply check_response parse_numeric_value
  read-increment_reply k n (ok next) t b =
      ap parsed (read-write k send n 0 [] (format_int next) false (omega arith) k.empty_IsText)
      ∙ rw (parsed, parse_trim-format_int next (b next refl)) refl
  read-increment_reply k n (err e) t b =
      ap parsed (read-write k send n 500 (error_text e) [] false (omega arith) (t e refl))

module _ {C S W : Type 0} ⦃c : CacheOps C⦄ ⦃o : FilterOps S⦄ ⦃p : ProtoOps W⦄ where
  serve_get-reply :
      (g g' : Group C S) (req : Request) (w : World) (a : Answer ByteView)
      → Group.get g req.key w.course w.peer w.fetched w.random w.now ≡ some (g', a)
      → serve_get {W = W} g req w ≡ some (g', get_reply a)
  unfolding serve_get get_reply byte_slice
  serve_get-reply g g' req w (ok v) done = rw done refl
  serve_get-reply g g' req w (err e) done = rw done refl

  serve_increment-reply :
      (g g' : Group C S) (req : Request) (w : World) (a : Answer Int64)
      → increment_locally g req.key req.delta w.failure w.backend w.random w.now w.later
        ≡ some (g', a)
      → serve_increment {W = W} g req w ≡ some (g', increment_reply a)
  unfolding serve_increment increment_reply
  serve_increment-reply g g' req w (ok v) done = rw done refl
  serve_increment-reply g g' req w (err e) done = rw done refl

  serve_invalidate-reply :
      (g g' : Group C S) (req : Request)
      → invalidate_local g req.key ≡ some g'
      → serve_invalidate {W = W} g req ≡ some (g', write_proto_response 0 [] [] false)
  unfolding serve_invalidate
  serve_invalidate-reply g g' req done = rw done refl

-- The transport takes a call on the getter to the handler of the node.
abbrev pub Reaches :
    {C S W : Type 0} ⦃c : CacheOps C⦄ ⦃o : FilterOps S⦄ ⦃p : ProtoOps W⦄
    → (Bytes → W → Exchange W)
    → HttpGetter
    → Node C S
    → World
    → Bytes
    → Bytes
    → Type 0
Reaches send h n w action path =
    (body : _) → send (h.base_url ++ action) body ≡ deliver (serve_http n path post (ok body) w)

module _ {C S W : Type 0} ⦃c : CacheOps C⦄ ⦃o : FilterOps S⦄ ⦃p : ProtoOps W⦄ (k : IsCodec p)
    (send : Bytes → W → Exchange W) (h : HttpGetter) (n : Node C S) (w : World) (req : Request)
    (g g' : Group C S) where
  -- A Get between two nodes that have the group, over a transport that delivers and a codec that reads
  -- back what it writes: the client returns the bytes of the value that the group of the other node
  -- answers with, ErrNotFound where that one does, and else a server error with the text of its
  -- error and the code 404 if that text speaks of the filter, 500 if not.
  pub get_over_http :
      (a : Answer ByteView)
      → k.IsText req.group
      → k.IsText req.key
      → req.delta < modulus
      → ((e : Error) → a ≡ err e → k.IsText (error_text e))
      → lookup req.group n.groups ≡ some g
      → Group.get g req.key w.course w.peer w.fetched w.random w.now ≡ some (g', a)
      → Reaches send h n w (codes "get") get_path
      → value_of (Client.get send h req) ≡ over_wire a
  unfolding Client.get
  get_over_http a tg tk td ta l done reach =
      let (body, e, f) = k.request_trip req tg tk td in
      let replied : serve_http n get_path post (ok body) w ≡ registered n req (g', get_reply a) =
        serve_http-get n w req g body f l
        ∙ ap (λ o. o >>= registered n req) (serve_get-reply g g' req w a done) in
      ap value_of (
        do_proto_request-sent send h (codes "get") req body e
        ∙ ap (read_exchange send) (reach body ∙ ap deliver replied))
      ∙ read-get_reply k send _ a ta

  -- An Increment between two nodes that have the group, over a transport that delivers and a codec
  -- that reads back what it writes: the client returns the number that the group of the other node
  -- counts to, and for each of its errors a server error with code 500 and the text of the error.
  pub increment_over_http :
      (a : Answer Int64)
      → k.IsText req.group
      → k.IsText req.key
      → req.delta < modulus
      → ((e : Error) → a ≡ err e → k.IsText (error_text e))
      → ((next : Int64) → a ≡ ok next → next < modulus)
      → lookup req.group n.groups ≡ some g
      → increment_locally g req.key req.delta w.failure w.backend w.random w.now w.later
        ≡ some (g', a)
      → Reaches send h n w (codes "increment") increment_path
      → increment_from_peer send req.group h req.key req.delta ≡ counted_over_wire a
  unfolding Client.increment increment_from_peer
  increment_over_http a tg tk td ta b l done reach =
      let (body, e, f) = k.request_trip req tg tk td in
      let replied : serve_http n increment_path post (ok body) w
          ≡ registered n req (g', increment_reply a) =
        serve_http-increment n w req g body f l
        ∙ ap (λ o. o >>= registered n req) (serve_increment-reply g g' req w a done) in
      ap parsed (
        do_proto_request-sent send h (codes "increment") req body e
        ∙ ap (read_exchange send) (reach body ∙ ap deliver replied))
      ∙ read-increment_reply send k _ a ta b

  -- An Invalidate between two nodes that have the group, over a transport that delivers and a codec
  -- that reads back what it writes: the client sees no error, and the handler of the other node,
  -- called with the body that the client sends, leaves a node that holds the group as a local
  -- invalidation does.
  pub invalidate_over_http :
      k.IsText req.group
      → k.IsText req.key
      → req.delta < modulus
      → lookup req.group n.groups ≡ some g
      → invalidate_local g req.key ≡ some g'
      → Reaches send h n w (codes "invalidate") invalidate_path
      → (Client.invalidate send h req ≡ none)
        × ((body : W) × (m : Node C S) × (reply : Reply W) × (p.marshal_request req ≡ ok body)
            × (serve_http n invalidate_path post (ok body) w ≡ some (m, reply))
            × (lookup req.group m.groups ≡ some g'))
  unfolding Client.invalidate check_response
  invalidate_over_http tg tk td l done reach =
      let (body, e, f) = k.request_trip req tg tk td in
      let reply : Reply W = write_proto_response 0 [] [] false in
      let served : serve_invalidate g req ≡ some (g', reply) =
        serve_invalidate-reply g g' req done in
      let replied : serve_http n invalidate_path post (ok body) w ≡ registered n req (g', reply) =
        serve_http-invalidate n w req g body f l ∙ ap (λ o. o >>= registered n req) served in
      (
        ap failure_of (
            do_proto_request-sent send h (codes "invalidate") req body e
            ∙ ap (read_exchange send) (reach body ∙ ap deliver replied)
            ∙ read-write k send _ 0 [] [] false (omega arith) k.empty_IsText),
        (body, _, reply, e, replied, lookup-insert_eq req.group req.group g' n.groups refl),
      )
