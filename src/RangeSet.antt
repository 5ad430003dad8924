-- ===== src/RangeSet.antt =====
-- messages/src/range.rs: sets of block numbers as lists of closed ranges. A range is a message, so
-- its two fields are any two u32; `none` is a panic. `extend` is written over an array with two
-- indices, as in the source; `p.end + 1` wraps at 2 ^ 32, as in a build without overflow checks.
pub mod Sorting
pub mod Merging
pub mod InPlace
pub mod Search
pub mod Inclusion
pub mod Canonical
pub mod Overflow
mod Examples
use subsquid_network.Base.{
  ℕ, zero, suc, ◌+◌, ◌-◌, ◌/◌, ◌%◌, ◌^◌, ◌≤◌, ◌<◌, ◌≡◌, max, Bool, true, false, Option, none, some,
  List, [], ◌∷◌, ◌++◌, ◌&&◌, ◌||◌, ltb, leb, eqb, if◌then◌else◌, length, get_elem?, set, take,
  is_some,
}

pub record Range : Type 0 where
  pub begin : ℕ
  pub end : ℕ

abbrev pub u32_mod : ℕ
u32_mod = 2 ^ 32

-- `Range::new`: the assertion panics on a range that ends before it begins.
unfoldable pub new : ℕ → ℕ → Option Range
new begin end = if leb begin end then some (record { begin = begin; end = end }) else none

-- The derived `Ord`: by `begin`, then by `end`.
unfoldable pub range_le : Range → Range → Bool
range_le a b = ltb a.begin b.begin || (eqb a.begin b.begin && leb a.end b.end)

pub insert_sorted : Range → List Range → List Range
insert_sorted r [] = r ∷ []
insert_sorted r (s ∷ rs) = if range_le r s then r ∷ s ∷ rs else s ∷ insert_sorted r rs

-- `slice::sort`; equal ranges are equal in both fields, so any sort gives this list.
pub sort : List Range → List Range
sort [] = []
sort (r ∷ rs) = insert_sorted r (sort rs)

-- The body of the loop of `extend` at the index `i`: the new `pi` and array.
pub extend_body : Range → Range → ℕ → List Range → Option (ℕ × List Range)
unfolding new
extend_body c p pi ranges =
    if ltb ((p.end + 1) % u32_mod) c.begin
    then some (pi + 1, set ranges (pi + 1) c)
    else elim (new p.begin (max c.end p.end)) [ none ↦ none | some r ↦ some (pi, set ranges pi r) ]

-- The loop over the `rounds` indices from `i`; an index out of bounds would panic.
pub extend_loop : ℕ → ℕ → ℕ → List Range → Option (ℕ × List Range)
extend_loop zero i pi ranges = some (pi, ranges)
extend_loop (suc rounds) i pi ranges = elim (get_elem? ranges i) [
  | none ↦ none
  | some c ↦ elim (get_elem? ranges pi) [
    | none ↦ none
    | some p ↦ elim (extend_body c p pi ranges) [
      | none ↦ none
      | some (pi', ranges') ↦ extend_loop rounds (i + 1) pi' ranges'
    ]
  ]
]

-- `truncate(pi + 1)`
pub truncated : Option (ℕ × List Range) → Option (List Range)
truncated none = none
truncated (some (pi, ranges)) = some (take (pi + 1) ranges)

-- `RangeSet::extend`
pub extend : List Range → List Range → Option (List Range)
unfolding truncated
extend old iter =
    let ranges = sort (old ++ iter) in truncated (extend_loop (length ranges - 1) 1 0 ranges)

-- `RangeSet::from`
pub from_iter : List Range → Option (List Range)
unfolding extend
from_iter iter = extend [] iter

pub data Comparison : Type 0 where
  less equal greater : Comparison

-- The closure that `containing_range` hands to `binary_search_by`.
pub compare_range : ℕ → Range → Comparison
compare_range point i =
    if ltb point i.begin
    then Comparison.greater
    else if ltb i.end point
    then Comparison.less
    else Comparison.equal

-- `slice::binary_search_by(…).ok()` of the standard library: the loop over `left..right`.
pub binary_search : ℕ → (Range → Comparison) → List Range → ℕ → ℕ → Option ℕ
binary_search zero cmp ranges left right = none
binary_search (suc fuel) cmp ranges left right =
    let mid = left + (right - left) / 2 in
    elim (ltb left right) [
      | false ↦ none
      | true ↦ elim (get_elem? ranges mid) [
        | none ↦ none
        | some r ↦ elim (cmp r) [
          | less ↦ binary_search fuel cmp ranges (mid + 1) right
          | equal ↦ some mid
          | greater ↦ binary_search fuel cmp ranges left mid
        ]
      ]
    ]

pub containing_range : List Range → ℕ → Option ℕ
containing_range ranges point =
    binary_search (suc (length ranges)) (compare_range point) ranges 0 (length ranges)

pub has : List Range → ℕ → Bool
has ranges point = is_some (containing_range ranges point)

pub find_containing_range : List Range → ℕ → Option Range
find_containing_range ranges point = elim (containing_range ranges point) [
  | none ↦ none
  | some i ↦ get_elem? ranges i
]

pub includes : List Range → Range → Bool
includes ranges range = elim (find_containing_range ranges range.begin) [
  | none ↦ false
  | some c ↦ leb range.end c.end
]

-- What the set means: a point lies in one of its ranges.
abbrev pub covers : List Range → ℕ → Bool
covers [] point = false
covers (r ∷ rs) point = (leb r.begin point && leb point r.end) || covers rs point

-- The ranges are proper, end below the largest u32, and a gap separates each from the next.
abbrev pub SeparatedFrom : ℕ → List Range → Type 0
SeparatedFrom b [] = Unit {0}
SeparatedFrom b (r ∷ rs) =
    (b ≤ r.begin) × (r.begin ≤ r.end) × (r.end + 1 < u32_mod) × SeparatedFrom (r.end + 2) rs

abbrev pub IsSeparated : List Range → Type 0
IsSeparated = SeparatedFrom 0

abbrev pub IsProper : List Range → Type 0
IsProper [] = Unit {0}
IsProper (r ∷ rs) = (r.begin ≤ r.end) × (r.end + 1 < u32_mod) × IsProper rs
