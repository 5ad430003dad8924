-- ===== src/RangeSet/Sorting.antt =====
-- messages/src/range.rs: what the sort in `RangeSet::extend` gives.
use subsquid_network.Base.{
  ℕ, ◌+◌, ◌≤◌, ◌<◌, ◌≡◌, refl, ◌||◌, List, [], ◌∷◌, ◌++◌, arith, Bool-cases, inl, inr,
}
use subsquid_network.RangeSet.{Range, range_le, insert_sorted, sort, covers, IsProper, u32_mod}

-- The ranges are proper, and each begins no earlier than the one before it.
abbrev pub SortedFrom : ℕ → List Range → Type 0
SortedFrom b [] = Unit {0}
SortedFrom b (r ∷ rs) =
    (b ≤ r.begin) × (r.begin ≤ r.end) × (r.end + 1 < u32_mod) × SortedFrom r.begin rs

SortedFrom-insert_sorted :
    (b : ℕ) (r : Range) (rs : List Range)
    → b ≤ r.begin
    → r.begin ≤ r.end
    → r.end + 1 < u32_mod
    → SortedFrom b rs
    → SortedFrom b (insert_sorted r rs)
unfolding insert_sorted range_le
SortedFrom-insert_sorted b r [] h p q s = ground arith
SortedFrom-insert_sorted b r (t ∷ rs) h p q s = elim (Bool-cases (range_le r t)) [
  | inl first ↦ ground arith
  | inr later ↦ ground (arith, SortedFrom-insert_sorted t.begin r rs)
]

pub SortedFrom-sort : (rs : List Range) → IsProper rs → SortedFrom 0 (sort rs)
unfolding sort
SortedFrom-sort [] h = tt
SortedFrom-sort (r ∷ rs) h =
    SortedFrom-insert_sorted 0 r (sort rs) (omega arith) h.0 h.1 (SortedFrom-sort rs h.2)

covers-insert_sorted :
    (point : ℕ) (r : Range) (rs : List Range)
    → covers (insert_sorted r rs) point ≡ covers (r ∷ rs) point
unfolding insert_sorted
covers-insert_sorted point r [] = refl
covers-insert_sorted point r (t ∷ rs) = ground (arith, covers-insert_sorted point r rs)

-- Sorting keeps the points.
pub covers-sort : (point : ℕ) (rs : List Range) → covers (sort rs) point ≡ covers rs point
unfolding sort
covers-sort point [] = refl
covers-sort point (r ∷ rs) =
    ground (arith, covers-insert_sorted point r (sort rs), covers-sort point rs)

pub covers-append :
    (point : ℕ) (rs ss : List Range)
    → covers (rs ++ ss) point ≡ (covers rs point || covers ss point)
covers-append point [] ss = refl
covers-append point (r ∷ rs) ss = ground (arith, covers-append point rs ss)

pub IsProper-append : (rs ss : List Range) → IsProper rs → IsProper ss → IsProper (rs ++ ss)
IsProper-append [] ss h k = k
IsProper-append (r ∷ rs) ss h k = (h.0, h.1, IsProper-append rs ss h.2 k)
