-- ===== src/DataChunk/RoundTrip.antt =====
-- messages/src/data_chunk.rs: what is left of a chunk that is printed and parsed.
use subsquid_network.Base.{ℕ, ◌^◌, ◌≤◌, ◌<◌, ◌≡◌, ap, ◌∙◌, some, ◌∷◌, ◌++◌, arith}
use subsquid_network.DataChunk.{
  Text, DataChunk, padded, display, split, from_str, checked_chunk, new_chunk, or_error,
}
use subsquid_network.DataChunk.Text.{
  until, first_piece, split_at, until-append, padded-Lacks, parse_u32-padded,
}

-- The part of a printed chunk behind the top.
range_text : DataChunk → Text
range_text c = padded 10 c.first_block ++ b'-' ∷ (padded 10 c.last_block ++ b'-' ∷ c.last_hash)

until-range_text :
    (c : DataChunk)
    → until b'/' (range_text c)
      ≡ padded 10 c.first_block ++ b'-' ∷ (padded 10 c.last_block ++ b'-' ∷ until b'/' c.last_hash)
unfolding range_text until
until-range_text c =
    until-append b'/' (padded 10 c.first_block)
      (b'-' ∷ (padded 10 c.last_block ++ b'-' ∷ c.last_hash))
      (padded-Lacks b'/' 10 c.first_block (omega arith))
    ∙ ap (λ s. padded 10 c.first_block ++ b'-' ∷ s)
        (until-append b'/' (padded 10 c.last_block) (b'-' ∷ c.last_hash)
          (padded-Lacks b'/' 10 c.last_block (omega arith)))

split-range :
    (beg end : ℕ) (hash : Text)
    → split b'-' (padded 10 beg ++ b'-' ∷ (padded 10 end ++ b'-' ∷ hash))
      ≡ padded 10 beg ∷ padded 10 end ∷ split b'-' hash
split-range beg end hash =
    split_at b'-' (padded 10 beg) (padded 10 end ++ b'-' ∷ hash)
      (padded-Lacks b'-' 10 beg (omega arith))
    ∙ ap (λ pieces. padded 10 beg ∷ pieces)
        (split_at b'-' (padded 10 end) hash (padded-Lacks b'-' 10 end (omega arith)))

checked_chunk-ordered :
    (top beg end : ℕ) (hash : Text)
    → top ≤ beg
    → beg ≤ end
    → checked_chunk top beg end hash
      ≡ some (some (record { top = top; first_block = beg; last_block = end; last_hash = hash }))
unfolding checked_chunk new_chunk
checked_chunk-ordered top beg end hash h1 h2 = ground arith

-- A chunk in order is printed as a text that parses to it, but for the hash, which is cut before its
-- first `/` and then before its first `-`.
pub from_str-display :
    (c : DataChunk)
    → c.top ≤ c.first_block
    → c.first_block ≤ c.last_block
    → c.last_block < 2 ^ 32
    → from_str (display c)
      ≡ some (
          some (record {
            top = c.top;
            first_block = c.first_block;
            last_block = c.last_block;
            last_hash = until b'-' (until b'/' c.last_hash);
          }))
unfolding from_str display range_text or_error
from_str-display c h1 h2 h3 =
    rw
      (
        split_at b'/' (padded 10 c.top) (range_text c) (padded-Lacks b'/' 10 c.top (omega arith)),
        parse_u32-padded c.top (omega (arith, h1, h2, h3)),
        first_piece b'/' (range_text c),
        until-range_text c,
        split-range c.first_block c.last_block (until b'/' c.last_hash),
        parse_u32-padded c.first_block (omega (arith, h2, h3)),
        parse_u32-padded c.last_block h3,
        first_piece b'-' (until b'/' c.last_hash),
      )
      (checked_chunk-ordered c.top c.first_block c.last_block (until b'-' (until b'/' c.last_hash))
        h1 h2)
