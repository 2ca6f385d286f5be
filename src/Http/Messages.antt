-- ===== src/Http/Messages.antt =====
-- http.go: the messages of peers, what the transport answers, and the methods of the protobuf
-- library, which are parameters. `W` stands for the bytes of a body, which only that library reads.
use cachecore.Base.{Bool, ℕ}
use cachecore.Errors.{Error, Answer}
use cachecore.Go.Bytes.{Bytes, Key}
use cachecore.Go.Int64.{Int64}

-- `pb.Request`
pub record Request : Type 0 where
  pub group : Key
  pub key : Key
  pub delta : Int64

-- `pb.Response`; `code`, an `int32`, is sign-extended.
pub record Response : Type 0 where
  pub code : Int64
  pub err_msg : Bytes
  pub value : Bytes
  pub not_found : Bool

-- `proto.Marshal` and `proto.Unmarshal`.
pub record ProtoOps (W : Type 0) : Type 0 where
  pub marshal_request : Request → Answer W
  pub unmarshal_request : W → Answer Request
  pub marshal_response : Response → Answer W
  pub unmarshal_response : W → Answer Response

-- What a handler writes: a body that the library encoded, with status 200, or `http.Error`.
pub data Reply (W : Type 0) : Type 0 where
  proto_reply : W → Reply W
  http_error : ℕ → Bytes → Reply W

-- What comes of a request that a client builds and performs: the two errors, or a status with its
-- text and a body that may fail to be read.
pub data Exchange (W : Type 0) : Type 0 where
  uncreated : Error → Exchange W
  unperformed : Error → Exchange W
  answered : ℕ → Bytes → Answer W → Exchange W
