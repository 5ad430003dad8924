-- ===== src/DataChunk/Accepting.antt =====
-- messages/src/data_chunk.rs: what `from_str` accepts.
use subsquid_network.Base.{
  ℕ, ◌+◌, ◌*◌, ◌-◌, ◌^◌, ◌≤◌, ◌<◌, ◌≡◌, refl, Option, none, some, [], ◌∷◌, get_elem?, arith,
}
use subsquid_network.DataChunk.{
  Text, DataChunk, split, scan, scan_some, parse_u32, from_str, checked_chunk, new_chunk, and_then,
  or_error,
}

-- No panic, and no chunk but one in order whose numbers a u32 holds.
unfoldable pub IsSound : Option (Option DataChunk) → Type 0
IsSound none = ⊥
IsSound (some none) = Unit
IsSound (some (some c)) =
    (c.top ≤ c.first_block) × (c.first_block ≤ c.last_block) × (c.last_block < 2 ^ 32)

scan_bound : (s : Text) (m n : ℕ) → m < 2 ^ 32 → scan s m ≡ some n → n < 2 ^ 32
unfolding scan
scan_bound [] m n h e = ground (arith, h, e)
scan_bound (c ∷ s) m n h e = ground (arith, e, scan_bound s (m * 10 + (c - b'0')) n)

scan_some_bound : (s : Text) (n : ℕ) → scan_some s ≡ some n → n < 2 ^ 32
unfolding scan_some
scan_some_bound [] n e = ground (arith, e)
scan_some_bound (c ∷ s) n e = scan_bound (c ∷ s) 0 n (omega arith) e

parse_u32_bound : (s : Text) (n : ℕ) → parse_u32 s ≡ some n → n < 2 ^ 32
unfolding parse_u32
parse_u32_bound [] n e = ground (arith, e)
parse_u32_bound (c ∷ s) n e = ground (arith, e, scan_some_bound s n, scan_some_bound (c ∷ s) n)

parsed_bound : (o : Option Text) (n : ℕ) → and_then o parse_u32 ≡ some n → n < 2 ^ 32
parsed_bound none n e = ground (arith, e)
parsed_bound (some s) n e = parse_u32_bound s n e

or_error-IsSound :
    {A : Type 0} (o : Option A) (f : A → Option (Option DataChunk))
    → ((a : A) → o ≡ some a → IsSound (f a))
    → IsSound (or_error o f)
unfolding IsSound or_error
or_error-IsSound none f h = tt
or_error-IsSound (some a) f h = h a refl

checked_chunk-IsSound :
    (top beg end : ℕ) (hash : Text) → end < 2 ^ 32 → IsSound (checked_chunk top beg end hash)
unfolding IsSound checked_chunk new_chunk
checked_chunk-IsSound top beg end hash h = ground (arith, h)

-- `from_str` never panics, on any text, and a chunk that it gives has top ≤ first ≤ last < 2 ^ 32.
pub from_str-IsSound : (s : Text) → IsSound (from_str s)
unfolding from_str
from_str-IsSound s =
    let pieces = split b'/' s in
    or_error-IsSound (and_then (get_elem? pieces 0) parse_u32) _ λ top _.
      or_error-IsSound (get_elem? pieces 1) _ λ range _.
        let numbers = split b'-' range in
        or_error-IsSound (and_then (get_elem? numbers 0) parse_u32) _ λ beg _.
          or_error-IsSound (and_then (get_elem? numbers 1) parse_u32) _ λ end parsed.
            or_error-IsSound (get_elem? numbers 2) _ λ hash _.
              checked_chunk-IsSound top beg end hash (parsed_bound (get_elem? numbers 1) end parsed)
