-- ===== src/RangeSet/Inclusion.antt =====
-- messages/src/range.rs: `RangeSet::includes`, against the points of the range.
use subsquid_network.Base.{
  ℕ, ◌+◌, ◌≤◌, ◌≡◌, sym, ◌∙◌, true, false, none, some, List, arith, leb, leb→le, le→leb, Bool-cases,
  Option-cases, inl, inr, ◌↔◌, get_elem?, dec_le, dec_lt,
}
use subsquid_network.RangeSet.{Range, find_containing_range, includes, covers, IsSeparated}
use subsquid_network.RangeSet.Search.{
  Contains, nth_order, nth_bounds, nth_of_covers, covers_of_nth, nth_unique,
  find_containing_range_sound, find_containing_range_complete,
}

-- Every point of the range lies in the set.
abbrev pub CoversAll : List Range → Range → Type 0
CoversAll rs range = (x : ℕ) → Contains range x → covers rs x ≡ true

includes-none :
    (rs : List Range) (range : Range)
    → find_containing_range rs range.begin ≡ none
    → includes rs range ≡ false
unfolding includes
includes-none rs range e = rw (e, includes)

includes-some :
    (rs : List Range) (range c : Range)
    → find_containing_range rs range.begin ≡ some c
    → includes rs range ≡ leb range.end c.end
unfolding includes
includes-some rs range c e = rw (e, includes)

-- The point behind a range of a separated set lies in the gap.
gap_behind :
    (rs : List Range) (i : ℕ) (r : Range)
    → IsSeparated rs
    → get_elem? rs i ≡ some r
    → covers rs (r.end + 1) ≡ false
gap_behind rs i r sep e = elim (Bool-cases (covers rs (r.end + 1))) [
  | inr gap ↦ gap
  | inl inside ↦
      let (j, s, f, c) = nth_of_covers rs (r.end + 1) inside in
      elim (dec_lt i j) [
        | yes lt ↦ absurd (omega (arith, nth_order 0 rs i j sep lt e f, c.0))
        | no p ↦ elim (dec_lt j i) [
          | yes lt ↦
              absurd (omega (arith, nth_order 0 rs j i sep lt f e, c.1, nth_bounds 0 rs i sep e))
          | no q ↦ absurd (ground (arith, nth_unique rs i j e f (omega arith)))
        ]
      ]
]

included : (rs : List Range) (range : Range) → includes rs range ≡ true → CoversAll rs range
included rs range h x c = elim (Option-cases (find_containing_range rs range.begin)) [
  | inl e ↦ absurd (cc (includes-none rs range e))
  | inr (r, e) ↦
      let (i, f, inside) = find_containing_range_sound rs range.begin r e in
      let reach = leb→le range.end r.end (sym (includes-some rs range r e) ∙ h) in
      covers_of_nth rs i x f (omega (arith, inside.0, c.0), omega (arith, reach, c.1))
]

-- On a separated set `includes` is true of a range whose begin is not above its end exactly when every
-- point of the range lies in the set, though it looks only at the one range around the first point.
pub includes-CoversAll :
    (rs : List Range) (range : Range)
    → IsSeparated rs
    → range.begin ≤ range.end
    → (includes rs range ≡ true) ↔ CoversAll rs range
includes-CoversAll rs range sep h = (
  included rs range,
  λ all.
      let (r, e) =
        find_containing_range_complete rs range.begin sep (all range.begin (omega arith, h)) in
      let (i, f, inside) = find_containing_range_sound rs range.begin r e in
      elim (dec_le range.end r.end) [
        | yes reach ↦ includes-some rs range r e ∙ le→leb range.end r.end reach
        | no short ↦ absurd (
            cc (
              gap_behind rs i r sep f,
              all (r.end + 1) (omega (arith, inside.1), omega (arith, short)),
            ))
      ],
)
