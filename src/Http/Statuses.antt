-- ===== src/Http/Statuses.antt =====
-- What a client makes of the response that the handler writes for an answer of `Get`.
use cachecore.Base.{
  ◌<◌, ◌≡◌, refl, if_pos, if_neg, ◌^◌, ◌==◌, sym, ap, ◌∙◌, subst, Bool, true, false, ◌||◌, [], some,
  if◌then◌else◌, arith,
}
use cachecore.Errors.{
  Error, key_required, not_found, filter_not_found, wait_timeout, non_numeric, server_error, other,
  Answer, ok, err, error_text, filter_text,
}
use cachecore.Go.Bytes.{Bytes, Key, equal, contains, has_prefix, key_dec}
use cachecore.Go.Int64.{Int64}
use cachecore.Http.Client.{read_exchange, check_response}
use cachecore.Http.Handler.{classify_peer_get_error, write_proto_response}
use cachecore.Http.Messages.{Response, ProtoOps, Reply, Exchange}
use cachecore.Http.Wire.{deliver, IsCodec, read-write}
use cachecore.View.{ByteView}

-- The status of an error that is not `ErrNotFound`: 404 if its text speaks of the filter.
unfoldable pub status_of : Error → Int64
status_of e = if contains (error_text e) filter_text then 404 else 500

-- What a client makes of an answer.
unfoldable pub over_wire : Answer ByteView → Answer Bytes
unfolding status_of
over_wire (ok v) = ok v.b
over_wire (err not_found) = err not_found
over_wire (err e) = err (server_error (status_of e) (error_text e))

abbrev pub value_of : Answer Response → Answer Bytes
value_of (ok out) = ok out.value
value_of (err e) = err e

contains-filter_text : contains filter_text filter_text ≡ true
unfolding contains has_prefix
contains-filter_text = refl

equal-contains :
    (m : Bytes) → (equal m filter_text || contains m filter_text) ≡ contains m filter_text
unfolding equal
equal-contains m =
    let either : Bool → Bool = λ b. b || contains m filter_text in
    elim (key_dec m filter_text) [
      | yes e ↦
          ap either (if_pos (key_dec m filter_text) e true false)
          ∙ subst (λ m. true ≡ contains m filter_text) (sym e) (sym contains-filter_text)
      | no p ↦ ap either (if_neg (key_dec m filter_text) p true false)
    ]

class_if :
    (b : Bool)
    → Path (Int64 × Bool) (if b then (404, false) else (500, false)) (if b then 404 else 500, false)
class_if true = refl
class_if false = refl

-- An error that is none of the two sentinels is no `ErrNotFound` for the client.
class_text :
    (e : Error)
    → Path
        (Int64 × Bool)
        (if equal (error_text e) filter_text || contains (error_text e) filter_text
          then (404, false)
          else (500, false))
        (status_of e, false)
unfolding status_of
class_text e =
    ap (λ b. if b then (404, false) else (500, false)) (equal-contains (error_text e)) ∙ class_if _

status_of-filter : (key : Key) → status_of (filter_not_found key) ≡ 404
unfolding status_of error_text contains has_prefix
status_of-filter key = refl

status_of-lt : (e : Error) → status_of e < 2 ^ 31
unfolding status_of
status_of-lt e = ground arith

status_of-ne : (e : Error) → (status_of e == 0) ≡ false
unfolding status_of
status_of-ne e = ground arith

-- What `ServeHTTP` writes for an answer of `Get`.
unfoldable pub get_reply : {W : Type 0} ⦃p : ProtoOps W⦄ → Answer ByteView → Reply W
get_reply (ok v) = write_proto_response 0 [] v.b false
get_reply (err e) =
    let class = classify_peer_get_error (some e) in
    write_proto_response class.0 (error_text e) [] class.1

module _ {W : Type 0} ⦃p : ProtoOps W⦄ (k : IsCodec p) (send : Bytes → W → Exchange W) where
  failed_reply :
      {N : Type 0} (n : N) (e : Error)
      → k.IsText (error_text e)
      → classify_peer_get_error (some e) ≡ (status_of e, false)
      → value_of (read_exchange send (deliver (some (n, get_reply (err e)))))
        ≡ err (server_error (status_of e) (error_text e))
  unfolding get_reply check_response
  failed_reply n e t q =
      let told : Int64 × Bool → Answer Bytes = λ class. value_of (
        read_exchange send
          (deliver (some (n, write_proto_response class.0 (error_text e) [] class.1)))) in
      ap told q
      ∙ ap value_of (read-write k send n (status_of e) (error_text e) [] false (status_of-lt e) t)
      ∙ rw (status_of-ne e) refl

  pub read-get_reply :
      {N : Type 0} (n : N) (a : Answer ByteView)
      → ((e : Error) → a ≡ err e → k.IsText (error_text e))
      → value_of (read_exchange send (deliver (some (n, get_reply a)))) ≡ over_wire a
  unfolding get_reply over_wire check_response classify_peer_get_error equal
  read-get_reply n (ok v) t =
      ap value_of (read-write k send n 0 [] v.b false (omega arith) k.empty_IsText)
  read-get_reply n (err not_found) t =
      ap value_of
        (read-write k send n 404 (error_text not_found) [] true (omega arith) (t not_found refl))
  read-get_reply n (err (filter_not_found key)) t =
      failed_reply n (filter_not_found key) (t _ refl)
        (ap (λ s. (s, false)) (sym (status_of-filter key)))
  read-get_reply n (err key_required) t =
      failed_reply n key_required (t _ refl) (class_text key_required)
  read-get_reply n (err wait_timeout) t =
      failed_reply n wait_timeout (t _ refl) (class_text wait_timeout)
  read-get_reply n (err non_numeric) t =
      failed_reply n non_numeric (t _ refl) (class_text non_numeric)
  read-get_reply n (err (server_error code msg)) t =
      failed_reply n (server_error code msg) (t _ refl) (class_text (server_error code msg))
  read-get_reply n (err (other text)) t =
      failed_reply n (other text) (t _ refl) (class_text (other text))
