-- ===== src/DataChunk/Examples.antt =====
-- messages/src/data_chunk.rs: a run, and witnesses.
use subsquid_network.Base.{◌≡◌, refl, some, [], ◌∷◌, arith}
use subsquid_network.DataChunk.{DataChunk, display, from_str}
use subsquid_network.DataChunk.Text.{until}
use subsquid_network.DataChunk.RoundTrip.{from_str-display}
use subsquid_network.DataChunk.Accepting.{IsSound, from_str-IsSound}

abbrev chunk : DataChunk
chunk = record {
  top = 100;
  first_block = 120;
  last_block = 4294967295;
  last_hash = b'a' ∷ b'b' ∷ b'-' ∷ b'c' ∷ [];
}

from_str-display_example :
    from_str (display chunk)
    ≡ some (
        some (record {
          top = 100;
          first_block = 120;
          last_block = 4294967295;
          last_hash = until b'-' (until b'/' chunk.last_hash);
        }))
from_str-display_example = from_str-display chunk (omega arith) (omega arith) (omega arith)

cut_hash : until b'-' (until b'/' chunk.last_hash) ≡ b'a' ∷ b'b' ∷ []
unfolding until
cut_hash = refl

from_str-IsSound_example : IsSound (from_str (b'7' ∷ b'/' ∷ b'9' ∷ []))
from_str-IsSound_example = from_str-IsSound (b'7' ∷ b'/' ∷ b'9' ∷ [])
