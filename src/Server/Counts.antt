-- ===== src/Server/Counts.antt =====
-- The counters of the API: its requests, and the errors among its replies.
use cachecore.Base.{
  ℕ, suc, ◌+◌, ◌≡◌, refl, ap, ◌∙◌, subst, Bool, true, false, not, List, [], ◌∷◌, Option, none, some,
  some-injective, none-ne-some, ◌==◌, ◌>>=◌, if◌then◌else◌, length, arith, bind-some,
}
use cachecore.Errors.{Error, Answer, ok, err}
use cachecore.Filter.{FilterOps}
use cachecore.Go.Bytes.{Bytes, Key, codes, equal}
use cachecore.Go.Int64
use cachecore.Go.Int64.{Int64, of_nat, add-of_nat}
use cachecore.Group
use cachecore.Group.{CacheOps, Group, peer_answer}
use cachecore.Http.Messages.{ProtoOps, Exchange}
use cachecore.Server.Api.{
  Api, ApiRequest, ApiReply, http_error, json_value, encode_failed, octets, Outside, read_delta,
  is_missing, is_non_numeric, fail_with, api_increment, api_get, api_handler,
}
use cachecore.View.{ByteView, byte_slice}

-- 1 for an error of the server other than of its encoder.
unfoldable pub failures : ApiReply → ℕ
failures (http_error status text) = if status == 500 then 1 else 0
failures (json_value key n) = 0
failures (encode_failed text) = 0
failures (octets b) = 0

unfoldable pub failures_in : List ApiReply → ℕ
failures_in [] = 0
failures_in (reply ∷ replies) = failures reply + failures_in replies

-- The counters stand at `n` requests and `m` failures, modulo 2 ^ 64.
abbrev pub Counts : {C S : Type 0} → ℕ → ℕ → Api C S → Type 0
Counts n m api = (api.api_requests ≡ of_nat n) × (api.api_errors ≡ of_nat m)

-- A call left the counters at `n` and at `m` with its own failure.
abbrev Counted : {C S : Type 0} → ℕ → ℕ → Api C S × ApiReply → Type 0
Counted n m done = Counts n (m + failures done.1) done.0

every :
    {A B : Type 0} (P : B → Type 0) (o : Option A) (f : A → B)
    → ((a : A) → P (f a))
    → (b : B) → (o >>= (λ a. some (f a))) ≡ some b
    → P b
every P none f g b e = absurd (none-ne-some b e)
every P (some a) f g b e = subst P (some-injective _ _ e) (g a)

certain : {B : Type 0} (P : B → Type 0) (a b : B) → P a → some a ≡ some b → P b
certain P a b p e = subst P (some-injective _ _ e) p

branch :
    {A : Type 0} (b : Bool) (P : A → Type 0) (x y : Option A) (done : A)
    → (x ≡ some done → P done)
    → (y ≡ some done → P done)
    → (if b then x else y) ≡ some done
    → P done
branch true P x y done f g e = f e
branch false P x y done f g e = g e

counted_one : (x m : ℕ) → x ≡ of_nat m → Int64.add x 1 ≡ of_nat (m + 1)
unfolding Int64.add of_nat
counted_one x m e = ground arith

module _ {C S : Type 0} where
  -- A reply that is no failure.
  no_failure :
      (n m : ℕ) (api : Api C S) (reply : ApiReply)
      → failures reply ≡ 0
      → Counts n m api
      → Counted n m (api, reply)
  no_failure n m api reply p q = (q.0, q.1 ∙ ap of_nat (omega (arith, p)))

  fail_with-Counted :
      (expected : Bool) (status : ℕ) (e : Error) (n m : ℕ) (api : Api C S)
      → failures (http_error status []) ≡ 0
      → Counts n m api
      → Counted n m (fail_with expected status e api)
  unfolding fail_with failures
  fail_with-Counted true status e n m api p q = (q.0, q.1 ∙ ap of_nat (omega arith))
  fail_with-Counted false status e n m api p q = (q.0, counted_one api.api_errors m q.1)

  increment_end :
      (key : Key) (encode_error : Option Bytes) (n m : ℕ) (api : Api C S) (a : Answer Int64)
      → Counts n m api
      → Counted {C = C} {S = S} n m (elim a [
        | err e ↦ fail_with (is_non_numeric e) 400 e api
        | ok next ↦ elim encode_error [
          | some text ↦ (api, encode_failed text)
          | none ↦ (api, json_value key next)
        ]
      ])
  unfolding failures
  increment_end key o n m api (err e) q = fail_with-Counted (is_non_numeric e) 400 e n m api refl q
  increment_end key none n m api (ok next) q = no_failure n m api (json_value key next) refl q
  increment_end key (some text) n m api (ok next) q = no_failure n m api (encode_failed text) refl q

  get_end :
      (n m : ℕ) (api : Api C S) (a : Answer ByteView)
      → Counts n m api
      → Counted {C = C} {S = S} n m
          (elim a [ err e ↦ fail_with (is_missing e) 404 e api | ok view ↦ (api, octets view.b) ])
  unfolding failures
  get_end n m api (err e) q = fail_with-Counted (is_missing e) 404 e n m api refl q
  get_end n m api (ok view) q = no_failure n m api (octets view.b) refl q

module _ {C S W : Type 0} ⦃c : CacheOps C⦄ ⦃o : FilterOps S⦄ ⦃p : ProtoOps W⦄
    (send : Bytes → W → Exchange W) where
  api_get-Counted :
      (n m : ℕ) (api : Api C S) (r : ApiRequest) (w : Outside) (done : Api C S × ApiReply)
      → Counts n m api
      → api_get send api r w ≡ some done
      → Counted n m done
  unfolding api_get byte_slice
  api_get-Counted n m api r w done q e =
      every (Counted n m)
        (Group.get api.group r.key w.course (peer_answer send api.group r.key) w.fetched w.random
          w.now)
        _ (λ a. get_end n m (record api { group = a.0 }) a.1 q) done e

  delta-Counted :
      (n m : ℕ) (api : Api C S) (r : ApiRequest) (w : Outside) (d : Option Int64)
      (done : Api C S × ApiReply)
      → Counts n m api
      → (elim d [
        | none ↦ some (api, http_error 400 (codes "delta must be an integer"))
        | some delta ↦
            (Group.increment send api.group r.key delta w.failure w.backend w.random w.now w.later
              >>= (λ done.
                  let counted : Api C S = record api { group = done.0 } in
                  some (elim done.1 [
                    | err e ↦ fail_with (is_non_numeric e) 400 e counted
                    | ok next ↦ elim w.encode_error [
                      | some text ↦ (counted, encode_failed text)
                      | none ↦ (counted, json_value r.key next)
                    ]
                  ])))
      ])
        ≡ some done
      → Counted n m done
  unfolding failures
  delta-Counted n m api r w none done q e =
      let reply = http_error 400 (codes "delta must be an integer") in
      certain (Counted n m) (api, reply) done (no_failure n m api reply refl q) e
  delta-Counted n m api r w (some delta) done q e =
      every (Counted n m)
        (Group.increment send api.group r.key delta w.failure w.backend w.random w.now w.later) _
        (λ a. increment_end r.key w.encode_error n m (record api { group = a.0 }) a.1 q) done e

  guarded :
      (b : Bool) (n m : ℕ) (api : Api C S) (status : ℕ) (text : Bytes)
      (next : Option (Api C S × ApiReply)) (done : Api C S × ApiReply)
      → failures (http_error status text) ≡ 0
      → Counts n m api
      → (next ≡ some done → Counted n m done)
      → (if b then some (api, http_error status text) else next) ≡ some done
      → Counted n m done
  guarded true n m api status text next done f q k e =
      certain (Counted n m) _ done (no_failure n m api _ f q) e
  guarded false n m api status text next done f q k e = k e

  api_increment-Counted :
      (n m : ℕ) (api : Api C S) (r : ApiRequest) (w : Outside) (done : Api C S × ApiReply)
      → Counts n m api
      → api_increment send api r w ≡ some done
      → Counted n m done
  unfolding api_increment failures
  api_increment-Counted n m api r w done q e =
      guarded (not (equal r.method (codes "POST"))) n m api 405 _ _ done refl q
        (λ e.
          guarded (length r.key == 0) n m api 400 _ _ done refl q
            (λ e. delta-Counted n m api r w (read_delta r.delta) done q e) e)
        e

  api_handler-Counted :
      (n m : ℕ) (api : Api C S) (r : ApiRequest) (w : Outside) (done : Api C S × ApiReply)
      → Counts n m api
      → api_handler send api r w ≡ some done
      → Counted (n + 1) m done
  unfolding api_handler
  api_handler-Counted n m api r w done q e =
      let counted : Api C S = record api { api_requests = Int64.add api.api_requests 1 } in
      let s : Counts (n + 1) m counted = (counted_one api.api_requests n q.0, q.1) in
      branch (equal r.path (codes "/api/increment")) (Counted (n + 1) m) _ _ done
        (api_increment-Counted (n + 1) m counted r w done s)
        (api_get-Counted (n + 1) m counted r w done s) e

  -- The API serves one call after the other.
  unfoldable pub run : Api C S → List (ApiRequest × Outside) → Option (Api C S × List ApiReply)
  unfolding api_handler
  run api [] = some (api, [])
  run api ((r, w) ∷ calls) = do
    done ← api_handler send api r w
    rest ← run done.0 calls
    some (rest.0, done.1 ∷ rest.1)

  -- What `run-Counts` says of a result.
  abbrev Total : ℕ → ℕ → List (ApiRequest × Outside) → Api C S × List ApiReply → Type 0
  Total n m calls (after, replies) =
      Counts (n + length replies) (m + failures_in replies) after × (length replies ≡ length calls)

  -- When the API serves calls one after the other and each of them returns, its counters go up by
  -- the number of its replies and by the number of those with status 500, those left out that the
  -- encoder of JSON causes, modulo 2 ^ 64, and every call has a reply.
  pub run-Counts :
      (calls : List (ApiRequest × Outside)) (n m : ℕ) (api after : Api C S)
      (replies : List ApiReply)
      → Counts n m api
      → run api calls ≡ some (after, replies)
      → Counts (n + length replies) (m + failures_in replies) after
        × (length replies ≡ length calls)
  unfolding run failures_in
  run-Counts [] n m api after replies q e =
      subst (Total n m []) (some-injective _ _ e)
        ((q.0 ∙ ap of_nat (omega arith), q.1 ∙ ap of_nat (omega arith)), refl)
  run-Counts ((r, w) ∷ calls) n m api after replies q e =
      let (done, p1, e1) = bind-some (api_handler send api r w) _ (after, replies) e in
      let (rest, p2, e2) = bind-some (run done.0 calls) _ (after, replies) e1 in
      let ih =
        run-Counts calls (n + 1) (m + failures done.1) done.0 rest.0 rest.1
          (api_handler-Counted n m api r w done q p1) p2 in
      subst (Total n m ((r, w) ∷ calls)) (some-injective _ _ e2)
        ((ih.0.0 ∙ ap of_nat (omega arith), ih.0.1 ∙ ap of_nat (omega arith)), ap suc ih.1)
