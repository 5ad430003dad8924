-- ===== src/Codec.antt =====
-- transport/src/codec.rs: requests and responses as bytes on a stream, with limits on what is read. The
-- streams of libp2p and the encoding of prost are parameters.
pub mod Limits
mod Examples
use subsquid_network.Base.{
  ℕ, ◌≤◌, ◌≡◌, String, Option, none, some, List, [], ◌∷◌, ◌++◌, take, length, Result, ok, err,
}
use subsquid_network.BaseBehaviour.Topics.{Codec}

abbrev pub ack_size : ℕ
ack_size = 4

-- A stream: `read_limited` is `take` of so many bytes and `read_to_end`. What was written to it, and
-- not read, can be read when no error comes in between.
pub record Stream : Type 1 where
  pub Inner : Type 0
  pub read_limited : ℕ → Inner → Result String (List ℕ)
  pub write_all : Inner → List ℕ → Result String Inner
  pub carried : Inner → Option (List ℕ)
  pub reads :
      (limit : ℕ) (io : Inner) (bytes : List ℕ)
      → carried io ≡ some bytes
      → read_limited limit io ≡ ok (take limit bytes)
  pub writes :
      (io io' : Inner) (before bytes : List ℕ)
      → carried io ≡ some before
      → write_all io bytes ≡ ok io'
      → carried io' ≡ some (before ++ bytes)

-- `ProtoCodec`
pub record ProtoCodec (Req Res : Type 0) : Type 0 where
  pub req : Codec Req
  pub res : Codec Res
  pub max_req_size : ℕ
  pub max_res_size : ℕ

-- `Message::decode`, with its error as that of the stream.
unfoldable pub decode_read : {M : Type 0} → Codec M → Result String (List ℕ) → Result String M
decode_read c (err e) = err e
decode_read c (ok buf) = elim (c.decode buf) [
  | none ↦ err "failed to decode Protobuf message"
  | some msg ↦ ok msg
]

module _ {Req Res : Type 0} (w : Stream) (c : ProtoCodec Req Res) where
  unfoldable pub read_request : w.Inner → Result String Req
  unfolding decode_read
  read_request io = decode_read c.req (w.read_limited c.max_req_size io)

  unfoldable pub read_response : w.Inner → Result String Res
  unfolding decode_read
  read_response io = decode_read c.res (w.read_limited c.max_res_size io)

  unfoldable pub write_request : w.Inner → Req → Result String w.Inner
  write_request io req = w.write_all io (c.req.encode_to_vec req)

  unfoldable pub write_response : w.Inner → Res → Result String w.Inner
  write_response io res = w.write_all io (c.res.encode_to_vec res)
