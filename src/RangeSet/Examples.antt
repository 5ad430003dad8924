-- ===== src/RangeSet/Examples.antt =====
-- messages/src/range.rs: the tests of the source, and each theorem at an input.
use subsquid_network.Base.{
  ℕ, ◌≡◌, refl, ◌↔◌, true, false, none, some, List, [], ◌∷◌, arith, ◌++◌, get_elem?,
}
use subsquid_network.RangeSet.{
  Range, new, range_le, insert_sorted, sort, extend_body, extend_loop, truncated, extend, from_iter,
  compare_range, binary_search, containing_range, has, find_containing_range, includes, covers,
  IsSeparated,
}
use subsquid_network.RangeSet.InPlace.{merged, Extended, extend-merged, extend-Extended}
use subsquid_network.RangeSet.Search.{Contains, has-covers, find_containing_range_sound}
use subsquid_network.RangeSet.Inclusion.{CoversAll, includes-CoversAll}
use subsquid_network.RangeSet.Canonical.{extend-order_free}
use subsquid_network.RangeSet.Overflow.{extend-overlap}

program : Unit {0}
unfolding new range_le insert_sorted sort extend_body extend_loop truncated extend from_iter
    compare_range binary_search containing_range has find_containing_range includes
program = tt

abbrev range : ℕ → ℕ → Range
range begin end = record { begin = begin; end = end }

abbrev arrivals : List Range
arrivals = range 10 20 ∷ range 21 30 ∷ range 35 40 ∷ range 5 10 ∷ []

abbrev stored : List Range
stored = range 0 10 ∷ range 20 30 ∷ range 40 50 ∷ []

range_set_always_sorted_and_separated : from_iter arrivals ≡ some (range 5 30 ∷ range 35 40 ∷ [])
unfolding program
range_set_always_sorted_and_separated = refl

range_set_has :
    (has stored 0 ≡ true)
    × (has stored 10 ≡ true)
    × (has stored 41 ≡ true)
    × (has stored 11 ≡ false)
    × (has stored 35 ≡ false)
unfolding program
range_set_has = (refl, refl, refl, refl, refl)

range_set_find_containing_range :
    (find_containing_range stored 30 ≡ some (range 20 30))
    × (find_containing_range stored 15 ≡ none)
unfolding program
range_set_find_containing_range = (refl, refl)

extend-merged_example : extend arrivals stored ≡ merged (sort (arrivals ++ stored))
extend-merged_example = extend-merged arrivals stored

extend-Extended_example :
    (out : List Range) × (extend stored arrivals ≡ some out) × Extended stored arrivals out
extend-Extended_example = extend-Extended stored arrivals (omega arith) (omega arith)

has-covers_example : has stored 25 ≡ covers stored 25
has-covers_example = has-covers stored 25 (omega arith)

find_containing_range_sound_example :
    (i : ℕ) × (get_elem? stored i ≡ some (range 20 30)) × Contains (range 20 30) 25
unfolding program
find_containing_range_sound_example = find_containing_range_sound stored 25 (range 20 30) refl

includes-CoversAll_example : (includes stored (range 22 28) ≡ true) ↔ CoversAll stored (range 22 28)
includes-CoversAll_example = includes-CoversAll stored (range 22 28) (omega arith) (omega arith)

extend-order_free_example : extend stored arrivals ≡ extend arrivals stored
extend-order_free_example =
    extend-order_free stored arrivals arrivals stored (omega arith) (omega arith) (omega arith)
      (omega arith) (λ x. ground arith)

extend-overlap_example :
    (extend (range 7 0xffff_ffff ∷ []) (range 9 12 ∷ [])
      ≡ some (range 7 0xffff_ffff ∷ range 9 12 ∷ []))
    × (¬ IsSeparated (range 7 0xffff_ffff ∷ range 9 12 ∷ []))
extend-overlap_example =
    extend-overlap (range 7 0xffff_ffff) (range 9 12) (omega arith) (omega arith) (omega arith)
