-- ===== src/Server/Api.antt =====
-- cmd/cache-server/main.go: the handler of `/api` and `/api/increment`.
use cachecore.Base.{
  ℕ, Bool, true, false, not, Option, none, some, ◌==◌, ◌>>=◌, if◌then◌else◌, length,
}
use cachecore.Errors.{Error, not_found, filter_not_found, non_numeric, Answer, ok, err, error_text}
use cachecore.Filter.{FilterOps}
use cachecore.Go.Bytes.{Bytes, Key, codes, equal}
use cachecore.Go.Int64
use cachecore.Go.Int64.{Int64}
use cachecore.Go.Numbers.{parse_int}
use cachecore.Group
use cachecore.Group.{CacheOps, Group, Course, peer_answer}
use cachecore.Http.Messages.{ProtoOps, Exchange}
use cachecore.View.{byte_slice}

-- The parts of a request that the handler reads, `key` and `delta` from the query.
pub record ApiRequest : Type 0 where
  pub path : Bytes
  pub method : Bytes
  pub key : Key
  pub delta : Bytes

-- What it writes: `http.Error`, the JSON of a key and its number, `http.Error` with status 500 and the
-- text of the encoder where that fails, or the bytes of a value.
pub data ApiReply : Type 0 where
  http_error : ℕ → Bytes → ApiReply
  json_value : Key → Int64 → ApiReply
  encode_failed : Bytes → ApiReply
  octets : Bytes → ApiReply

-- The group of the handler, and two counters of `Stats`.
pub record Api (C S : Type 0) : Type 0 where
  pub group : Group C S
  pub api_requests : ℕ
  pub api_errors : ℕ

-- What the group is told from outside during a call, as in `Http.Handler.World`, and the error of the encoder of
-- JSON, if it fails.
pub record Outside : Type 0 where
  pub failure : Option Error
  pub course : Course
  pub fetched : Answer Bytes
  pub backend : Option (Answer Int64)
  pub random : ℕ
  pub now : ℕ
  pub later : ℕ
  pub encode_error : Option Bytes

-- The `delta` of a request, 1 where it is absent, `none` where it is no integer.
unfoldable pub read_delta : Bytes → Option Int64
unfolding parse_int
read_delta raw = if length raw == 0 then some 1 else parse_int raw

-- `errors.Is(err, ErrNotFound) || errors.Is(err, ErrFilterNotFound)`
unfoldable pub is_missing : Error → Bool
is_missing not_found = true
is_missing (filter_not_found key) = true
is_missing _ = false

-- `errors.Is(err, ErrNonNumericValue)`
unfoldable pub is_non_numeric : Error → Bool
is_non_numeric non_numeric = true
is_non_numeric _ = false

-- The answer of a failed call that may be the fault of the request, with the status of that, or
-- counts as an error of the server.
unfoldable pub fail_with : {C S : Type 0} → Bool → ℕ → Error → Api C S → Api C S × ApiReply
unfolding error_text
fail_with expected status e api =
    if expected
    then (api, http_error status (error_text e))
    else (record api { api_errors = Int64.add api.api_errors 1 }, http_error 500 (error_text e))

module _ {C S W : Type 0} ⦃c : CacheOps C⦄ ⦃o : FilterOps S⦄ ⦃p : ProtoOps W⦄
    (send : Bytes → W → Exchange W) where
  unfoldable pub api_increment : Api C S → ApiRequest → Outside → Option (Api C S × ApiReply)
  unfolding Group.increment read_delta fail_with is_non_numeric
  api_increment api r w =
      if not (equal r.method (codes "POST"))
      then some (api, http_error 405 (codes "method not allowed"))
      else (if length r.key == 0
          then some (api, http_error 400 (codes "key is required"))
          else elim (read_delta r.delta) [
            | none ↦ some (api, http_error 400 (codes "delta must be an integer"))
            | some delta ↦ do
              done ←
                  Group.increment send api.group r.key delta w.failure w.backend w.random w.now
                    w.later
              let counted : Api C S = record api { group = done.0 }
              some (elim done.1 [
                | err e ↦ fail_with (is_non_numeric e) 400 e counted
                | ok next ↦ elim w.encode_error [
                  | some text ↦ (counted, encode_failed text)
                  | none ↦ (counted, json_value r.key next)
                ]
              ])
          ])

  unfoldable pub api_get : Api C S → ApiRequest → Outside → Option (Api C S × ApiReply)
  unfolding Group.get peer_answer fail_with is_missing byte_slice
  api_get api r w = do
    done ←
        Group.get api.group r.key w.course (peer_answer send api.group r.key) w.fetched w.random
          w.now
    let looked : Api C S = record api { group = done.0 }
    some (elim done.1 [
      | err e ↦ fail_with (is_missing e) 404 e looked
      | ok view ↦ (looked, octets (byte_slice view))
    ])

  -- The function of `newAPIHandler`.
  unfoldable pub api_handler : Api C S → ApiRequest → Outside → Option (Api C S × ApiReply)
  unfolding api_increment api_get equal
  api_handler api r w =
      let counted : Api C S = record api { api_requests = Int64.add api.api_requests 1 } in
      if equal r.path (codes "/api/increment")
      then api_increment counted r w
      else api_get counted r w
