-- ===== src/DataChunk.antt =====
-- messages/src/data_chunk.rs: the chunks of a dataset, and their names as text. A text is a list of
-- the codes of its characters.
pub mod Text
pub mod RoundTrip
pub mod Accepting
mod Examples
use subsquid_network.Base.{
  ℕ, zero, suc, ◌+◌, ◌-◌, ◌*◌, ◌/◌, ◌%◌, ◌^◌, ◌≤◌, ◌≡◌, Bool, true, false, ◌&&◌, ◌||◌, Option, none,
  some, List, [], ◌∷◌, ◌++◌, if◌then◌else◌, ltb, leb, eqb, get_elem?,
}
use subsquid_network.RangeSet.{Range}
use subsquid_network.RangeSet

abbrev pub Text : Type 0
Text = List ℕ

pub record DataChunk : Type 0 where
  pub top : ℕ
  pub first_block : ℕ
  pub last_block : ℕ
  pub last_hash : Text

-- `DataChunk::new`; a failed assertion is `none`.
unfoldable pub new_chunk : ℕ → ℕ → ℕ → Text → Option DataChunk
new_chunk top first_block last_block last_hash =
    if leb top first_block && leb first_block last_block
    then some (record {
      top = top;
      first_block = first_block;
      last_block = last_block;
      last_hash = last_hash;
    })
    else none

-- The last `width` decimal digits: `{:010}` of a u32, which has ten digits at most.
unfoldable pub padded : ℕ → ℕ → Text
padded zero n = []
padded (suc width) n = padded width (n / 10) ++ (b'0' + n % 10) ∷ []

-- `Display`
unfoldable pub display : DataChunk → Text
unfolding padded
display chunk =
    padded 10 chunk.top
    ++ b'/' ∷ padded 10 chunk.first_block
    ++ b'-' ∷ padded 10 chunk.last_block
    ++ b'-' ∷ chunk.last_hash

-- `str::split` on a character: the pieces, of which there is always one.
abbrev pub extend_first : ℕ → List Text → List Text
extend_first c [] = (c ∷ []) ∷ []
extend_first c (piece ∷ pieces) = (c ∷ piece) ∷ pieces

unfoldable pub split : ℕ → Text → List Text
split sep [] = [] ∷ []
split sep (c ∷ s) =
    let pieces = split sep s in if eqb c sep then [] ∷ pieces else extend_first c pieces

-- `u32::from_str`: one or more digits, behind a `+` or not, of a number that a u32 holds.
unfoldable pub scan : Text → ℕ → Option ℕ
scan [] n = some n
scan (c ∷ s) n =
    let rest = scan s (n * 10 + (c - b'0')) in
    if ltb c b'0' || ltb b'9' c
    then none
    else if leb (2 ^ 32) (n * 10 + (c - b'0'))
    then none
    else rest

unfoldable pub scan_some : Text → Option ℕ
unfolding scan
scan_some [] = none
scan_some (c ∷ s) = scan (c ∷ s) 0

unfoldable pub parse_u32 : Text → Option ℕ
unfolding scan_some
parse_u32 [] = none
parse_u32 (c ∷ s) = if eqb c b'+' then scan_some s else scan_some (c ∷ s)

abbrev pub and_then : {A B : Type 0} → Option A → (A → Option B) → Option B
and_then none f = none
and_then (some a) f = f a

-- The check at the end of `from_str`; the outer `none` is the panic of a failed assertion.
unfoldable pub checked_chunk : ℕ → ℕ → ℕ → Text → Option (Option DataChunk)
unfolding new_chunk
checked_chunk top beg end hash =
    if leb top beg && leb beg end
    then and_then (new_chunk top beg end hash) (λ chunk. some (some chunk))
    else some none

-- `?` on a part of the text that is missing or no number: `Err(())`.
unfoldable pub or_error :
    {A : Type 0} → Option A → (A → Option (Option DataChunk)) → Option (Option DataChunk)
or_error none f = some none
or_error (some a) f = f a

-- `FromStr`
unfoldable pub from_str : Text → Option (Option DataChunk)
unfolding or_error
from_str s =
    let top_range_split = split b'/' s in
    or_error (and_then (get_elem? top_range_split 0) parse_u32) λ top.
      or_error (get_elem? top_range_split 1) λ range_str.
        let range_split = split b'-' range_str in
        or_error (and_then (get_elem? range_split 0) parse_u32) λ beg.
          or_error (and_then (get_elem? range_split 1) parse_u32)
            λ end. or_error (get_elem? range_split 2) λ hash. checked_chunk top beg end hash

-- `From<DataChunk> for Range`
unfoldable pub to_range : DataChunk → Option Range
to_range chunk = RangeSet.new chunk.first_block chunk.last_block
