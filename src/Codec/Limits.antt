-- ===== src/Codec/Limits.antt =====
-- transport/src/codec.rs: what arrives within the limits, and beyond them.
use subsquid_network.Base.{
  ℕ, zero, suc, ◌≤◌, ◌≡◌, refl, ap, ◌∙◌, String, some, List, [], ◌∷◌, take, length, Result, ok,
  arith,
}
use subsquid_network.BaseBehaviour.Topics.{Codec, RoundTrips}
use subsquid_network.Codec.{
  Stream, ProtoCodec, decode_read, read_request, read_response, write_request, write_response,
}

take_all : {A : Type 0} (n : ℕ) (xs : List A) → length xs ≤ n → take n xs ≡ xs
take_all zero [] h = refl
take_all zero (x ∷ xs) h = ground (arith, h)
take_all (suc n) [] h = refl
take_all (suc n) (x ∷ xs) h = ap (λ rest. x ∷ rest) (take_all n xs (omega (arith, h)))

-- What is read of a message that was written to an empty stream.
unfoldable pub arrives : {M : Type 0} → Codec M → ℕ → List ℕ → Result String M
unfolding decode_read
arrives c limit bytes = decode_read c (ok (take limit bytes))

arrives_whole :
    {M : Type 0} (c : Codec M) (limit : ℕ) (msg : M)
    → RoundTrips c msg
    → length (c.encode_to_vec msg) ≤ limit
    → arrives c limit (c.encode_to_vec msg) ≡ ok msg
unfolding arrives
arrives_whole c limit msg trips fits =
    rw (take_all limit (c.encode_to_vec msg) fits, trips, decode_read)

module _ {Req Res : Type 0} (w : Stream) (c : ProtoCodec Req Res) where
  -- A request that is written to an empty stream arrives whole if its encoding is within the limit. A
  -- longer one is cut at the limit, and what is left of it is decoded.
  pub read_request-write_request :
      (io io' : w.Inner) (req : Req)
      → RoundTrips c.req req
      → w.carried io ≡ some []
      → write_request w c io req ≡ ok io'
      → (read_request w c io' ≡ arrives c.req c.max_req_size (c.req.encode_to_vec req))
        × (length (c.req.encode_to_vec req) ≤ c.max_req_size → read_request w c io' ≡ ok req)
  unfolding read_request write_request arrives
  read_request-write_request io io' req trips empty written =
      let read =
        ap (decode_read c.req)
          (w.reads c.max_req_size io' _ (w.writes io io' [] _ empty written)) in
      (read, λ fits. read ∙ arrives_whole c.req c.max_req_size req trips fits)

  -- The same of a response, with the limit of responses.
  pub read_response-write_response :
      (io io' : w.Inner) (res : Res)
      → RoundTrips c.res res
      → w.carried io ≡ some []
      → write_response w c io res ≡ ok io'
      → (read_response w c io' ≡ arrives c.res c.max_res_size (c.res.encode_to_vec res))
        × (length (c.res.encode_to_vec res) ≤ c.max_res_size → read_response w c io' ≡ ok res)
  unfolding read_response write_response arrives
  read_response-write_response io io' res trips empty written =
      let read =
        ap (decode_read c.res)
          (w.reads c.max_res_size io' _ (w.writes io io' [] _ empty written)) in
      (read, λ fits. read ∙ arrives_whole c.res c.max_res_size res trips fits)
