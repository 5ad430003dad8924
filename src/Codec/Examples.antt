-- ===== src/Codec/Examples.antt =====
-- transport/src/codec.rs: a stream and a codec at an input.
use subsquid_network.Base.{ℕ, ◌≤◌, ◌≡◌, refl, ap, some, List, [], ◌∷◌, ◌++◌, take, ok}
use mathlib.Core.Option.{some-injective}
use subsquid_network.BaseBehaviour.Topics.{Codec}
use subsquid_network.Codec.{Stream, ProtoCodec, read_request, write_request}
use subsquid_network.Codec.Limits.{arrives, read_request-write_request}

-- Texts of numbers, as they are.
abbrev plain : Codec (List ℕ)
plain = record { encode_to_vec = λ msg. msg; decode = λ bytes. some bytes }

abbrev pipe : Stream
pipe = record {
  Inner = List ℕ;
  read_limited = λ limit io. ok (take limit io);
  write_all = λ io bytes. ok (io ++ bytes);
  carried = λ io. some io;
  reads = λ limit io bytes h. ap (λ b. ok (take limit b)) (some-injective io bytes h);
  writes = λ io io' before bytes h e. cc (h, e);
}

abbrev codec : ProtoCodec (List ℕ) (List ℕ)
codec = record { req = plain; res = plain; max_req_size = 3; max_res_size = 2 }

read_request-write_request_example :
    (read_request pipe codec (1 ∷ 2 ∷ 3 ∷ []) ≡ arrives plain 3 (1 ∷ 2 ∷ 3 ∷ []))
    × (3 ≤ 3 → read_request pipe codec (1 ∷ 2 ∷ 3 ∷ []) ≡ ok (1 ∷ 2 ∷ 3 ∷ []))
unfolding write_request
read_request-write_request_example =
    read_request-write_request pipe codec [] (1 ∷ 2 ∷ 3 ∷ []) (1 ∷ 2 ∷ 3 ∷ []) refl refl refl
