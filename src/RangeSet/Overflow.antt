-- ===== src/RangeSet/Overflow.antt =====
-- messages/src/range.rs: `p.end + 1` in `RangeSet::extend` at the largest u32.
use subsquid_network.Base.{◌+◌, ◌≤◌, ◌<◌, ◌≡◌, ◌∙◌, some, [], ◌∷◌, arith}
use subsquid_network.RangeSet.{Range, extend, sort, insert_sorted, range_le, IsSeparated, u32_mod}
use subsquid_network.RangeSet.InPlace.{extend-merged}
use subsquid_network.RangeSet.Merging.{merge}

-- With a range that reaches the largest u32, every later range that begins inside it stays a
-- range of its own: the sum wraps to 0. The result is then not separated.
pub extend-overlap :
    (p c : Range)
    → p.end + 1 ≡ u32_mod
    → p.begin < c.begin
    → c.begin ≤ p.end
    → (extend (p ∷ []) (c ∷ []) ≡ some (p ∷ c ∷ [])) × (¬ IsSeparated (p ∷ c ∷ []))
unfolding sort insert_sorted range_le merge
extend-overlap p c top h inside =
    (extend-merged (p ∷ []) (c ∷ []) ∙ ground arith, λ s. omega (arith, s.2))
