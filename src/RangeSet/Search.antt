-- ===== src/RangeSet/Search.antt =====
-- messages/src/range.rs: the binary search behind `has` and `find_containing_range`.
use subsquid_network.Base.{
  ℕ, zero, suc, ◌+◌, ◌-◌, ◌/◌, ◌≤◌, ◌<◌, ◌≡◌, refl, sym, ap, subst, ◌∙◌, true, ◌&&◌, Option, none,
  some, List, [], ◌∷◌, arith, leb, Bool-cases, Option-cases, inl, inr, ◌⊎◌, length, get_elem?,
  is_some, dec_lt, lt→ltb,
}
use mathlib.Core.Option.{some-injective}
use subsquid_network.RangeSet.{
  Range, Comparison, less, equal, greater, compare_range, binary_search, containing_range, has,
  find_containing_range, covers, SeparatedFrom, IsSeparated, u32_mod,
}

abbrev pub Contains : Range → ℕ → Type 0
Contains r point = (r.begin ≤ point) × (point ≤ r.end)

pub nth_bounds :
    (b : ℕ) (rs : List Range) (i : ℕ) {r : Range}
    → SeparatedFrom b rs
    → get_elem? rs i ≡ some r
    → (b ≤ r.begin) × (r.begin ≤ r.end) × (r.end + 1 < u32_mod)
nth_bounds b [] i s e = ground arith
nth_bounds b (x ∷ rs) zero s e = ground arith
nth_bounds b (x ∷ rs) (suc i) s e = omega (arith, nth_bounds (x.end + 2) rs i s.3 e, s.0, s.1)

-- Of two ranges, the later one begins behind a gap.
pub nth_order :
    (b : ℕ) (rs : List Range) (i j : ℕ) {r s : Range}
    → SeparatedFrom b rs
    → i < j
    → get_elem? rs i ≡ some r
    → get_elem? rs j ≡ some s
    → r.end + 1 < s.begin
nth_order b [] i j sep lt e f = ground arith
nth_order b (x ∷ rs) i zero sep lt e f = absurd (omega arith)
nth_order b (x ∷ rs) zero (suc j) sep lt e f = ground (arith, nth_bounds (x.end + 2) rs j sep.3 f)
nth_order b (x ∷ rs) (suc i) (suc j) sep lt e f =
    nth_order (x.end + 2) rs i j sep.3 (omega arith) e f

in_bounds : (rs : List Range) (i : ℕ) → i < length rs → (r : Range) × (get_elem? rs i ≡ some r)
in_bounds [] i h = absurd (omega arith)
in_bounds (x ∷ rs) zero h = (x, refl)
in_bounds (x ∷ rs) (suc i) h = in_bounds rs i (omega arith)

pub index_bound : (rs : List Range) (i : ℕ) {r : Range} → get_elem? rs i ≡ some r → i < length rs
index_bound [] i e = ground arith
index_bound (x ∷ rs) zero e = omega arith
index_bound (x ∷ rs) (suc i) e = omega (arith, index_bound rs i e)

pub nth_of_covers :
    (rs : List Range) (point : ℕ)
    → covers rs point ≡ true
    → (i : ℕ) × (r : Range) × (get_elem? rs i ≡ some r) × Contains r point
nth_of_covers [] point h = ground arith
nth_of_covers (x ∷ rs) point h = elim (Bool-cases (leb x.begin point && leb point x.end)) [
  | inl here ↦ (0, x, refl, ground arith)
  | inr there ↦ let (i, r, e, c) = nth_of_covers rs point (ground arith) in (suc i, r, e, c)
]

pub covers_of_nth :
    (rs : List Range) (i point : ℕ) {r : Range}
    → get_elem? rs i ≡ some r
    → Contains r point
    → covers rs point ≡ true
covers_of_nth [] i point e c = ground arith
covers_of_nth (x ∷ rs) zero point e c = ground arith
covers_of_nth (x ∷ rs) (suc i) point e c = ground (arith, covers_of_nth rs i point e c)

compare_cases :
    (point : ℕ) (r : Range)
    → ((compare_range point r ≡ less) × (r.end < point))
      ⊎ ((compare_range point r ≡ greater) × (point < r.begin))
      ⊎ ((compare_range point r ≡ equal) × Contains r point)
unfolding compare_range
compare_cases point r = ground arith

abbrev middle : ℕ → ℕ → ℕ
middle left right = left + (right - left) / 2

module _ (fuel point : ℕ) (rs : List Range) (left right : ℕ) where
  abbrev round : Option ℕ
  round = binary_search (suc fuel) (compare_range point) rs left right

  abbrev after : Comparison → Option ℕ
  after less = binary_search fuel (compare_range point) rs (middle left right + 1) right
  after equal = some (middle left right)
  after greater = binary_search fuel (compare_range point) rs left (middle left right)

  round_empty : ¬ (left < right) → round ≡ none
  unfolding binary_search
  round_empty h = ground arith

  round_outside : left < right → get_elem? rs (middle left right) ≡ none → round ≡ none
  unfolding binary_search
  round_outside h e = rw (lt→ltb left right h, e, binary_search)

  round_compares :
      (x : Range) (c : Comparison)
      → left < right
      → get_elem? rs (middle left right) ≡ some x
      → compare_range point x ≡ c
      → round ≡ after c
  unfolding binary_search
  round_compares x less h e f = rw (lt→ltb left right h, e, f, binary_search)
  round_compares x equal h e f = rw (lt→ltb left right h, e, f, binary_search)
  round_compares x greater h e f = rw (lt→ltb left right h, e, f, binary_search)

-- What the search finds contains the point, on any list and with any fuel.
pub search_sound :
    (fuel point : ℕ) (rs : List Range) (left right i : ℕ)
    → binary_search fuel (compare_range point) rs left right ≡ some i
    → (x : Range) × (get_elem? rs i ≡ some x) × Contains x point
unfolding binary_search
search_sound zero point rs left right i e = ground arith
search_sound (suc fuel) point rs left right i e = elim (dec_lt left right) [
  | no p ↦ absurd (cc (round_empty fuel point rs left right p))
  | yes p ↦ elim (Option-cases (get_elem? rs (middle left right))) [
    | inl out ↦ absurd (cc (round_outside fuel point rs left right p out))
    | inr (x, f) ↦ elim (compare_cases point x) [
      | inl (c, _) ↦
          search_sound fuel point rs (middle left right + 1) right i
            (sym (round_compares fuel point rs left right x less p f c) ∙ e)
      | inr (inl (c, _)) ↦
          search_sound fuel point rs left (middle left right) i
            (sym (round_compares fuel point rs left right x greater p f c) ∙ e)
      | inr (inr (c, inside)) ↦
          let at_middle : middle left right ≡ i =
            some-injective _ _ (sym (round_compares fuel point rs left right x equal p f c) ∙ e) in
          (x, subst (λ j. get_elem? rs j ≡ some x) at_middle f, inside)
    ]
  ]
]

pub nth_unique :
    (rs : List Range) (i j : ℕ) {r s : Range}
    → get_elem? rs i ≡ some r
    → get_elem? rs j ≡ some s
    → i ≡ j
    → r ≡ s
nth_unique rs i j {s = s} e f h =
    some-injective _ _ (sym e ∙ subst (λ k. get_elem? rs k ≡ some s) (sym h) f)

module _ (b point : ℕ) (rs : List Range) (k mid : ℕ) {s x : Range} (sep : SeparatedFrom b rs)
    (e : get_elem? rs k ≡ some s) (f : get_elem? rs mid ≡ some x) (c : Contains s point) where
  -- The range that contains the point stands behind one that ends before the point.
  behind_of : x.end < point → mid < k
  behind_of h = elim (dec_lt mid k) [
    | yes lt ↦ lt
    | no p ↦ elim (dec_lt k mid) [
      | yes lt ↦ absurd (
          omega (
            arith,
            nth_order b rs k mid sep lt e f,
            nth_bounds b rs mid sep f,
            c.0,
            c.1,
            nth_bounds b rs k sep e,
          ))
      | no q ↦
          let same = nth_unique rs k mid e f (omega arith) in
          absurd (omega (arith, ap (λ (r : Range). r.end) same, c.1))
    ]
  ]

  before_of : point < x.begin → k < mid
  before_of h = elim (dec_lt k mid) [
    | yes lt ↦ lt
    | no p ↦ elim (dec_lt mid k) [
      | yes lt ↦
          absurd
            (omega (arith, nth_order b rs mid k sep lt f e, nth_bounds b rs mid sep f, c.0, c.1))
      | no q ↦
          let same = nth_unique rs k mid e f (omega arith) in
          absurd (omega (arith, ap (λ (r : Range). r.begin) same, c.0))
    ]
  ]

-- The search finds a range if one in `left..right` contains the point: the ranges are in order,
-- and the fuel exceeds the ranges that are left.
pub search_complete :
    (fuel point b : ℕ) (rs : List Range) (left right k : ℕ) (s : Range)
    → SeparatedFrom b rs
    → right < left + fuel
    → right ≤ length rs
    → left ≤ k
    → k < right
    → get_elem? rs k ≡ some s
    → Contains s point
    → (i : ℕ) × (binary_search fuel (compare_range point) rs left right ≡ some i)
search_complete zero point b rs left right k s sep hf hl lo hi e c = absurd (omega arith)
search_complete (suc fuel) point b rs left right k s sep hf hl lo hi e c =
    let mid = middle left right in
    let p : left < right = omega arith in
    let (x, f) = in_bounds rs mid (omega arith) in
    elim (compare_cases point x) [
      | inl (c', before) ↦
          let h = behind_of b point rs k mid sep e f c before in
          let (i, ran) =
            search_complete fuel point b rs (mid + 1) right k s sep (omega arith) hl
              (omega (arith, h)) hi e c in
          (i, round_compares fuel point rs left right x less p f c' ∙ ran)
      | inr (inl (c', behind)) ↦
          let h = before_of b point rs k mid sep e f c behind in
          let (i, ran) =
            search_complete fuel point b rs left mid k s sep (omega arith) (omega arith) lo h e c in
          (i, round_compares fuel point rs left right x greater p f c' ∙ ran)
      | inr (inr (c', inside)) ↦ (mid, round_compares fuel point rs left right x equal p f c')
    ]

-- On a separated set the search finds a range exactly when the point lies in the set.
pub has-covers : (rs : List Range) (point : ℕ) → IsSeparated rs → has rs point ≡ covers rs point
unfolding has containing_range
has-covers rs point sep = elim (Bool-cases (covers rs point)) [
  | inl inside ↦
      let (k, s, e, c) = nth_of_covers rs point inside in
      let (i, ran) =
        search_complete (suc (length rs)) point 0 rs 0 (length rs) k s sep (omega arith)
          (omega arith) (omega arith) (index_bound rs k e) e c in
      ap is_some ran ∙ sym inside
  | inr outside ↦ elim (Option-cases (containing_range rs point)) [
    | inl ran ↦ ap is_some ran ∙ sym outside
    | inr (i, ran) ↦
        let (x, f, c) = search_sound (suc (length rs)) point rs 0 (length rs) i ran in
        absurd (ground (arith, covers_of_nth rs i point f c))
  ]
]

find_none :
    (rs : List Range) (point : ℕ)
    → containing_range rs point ≡ none
    → find_containing_range rs point ≡ none
unfolding find_containing_range
find_none rs point ran = rw (ran, find_containing_range)

find_some :
    (rs : List Range) (point i : ℕ)
    → containing_range rs point ≡ some i
    → find_containing_range rs point ≡ get_elem? rs i
unfolding find_containing_range
find_some rs point i ran = rw (ran, find_containing_range)

-- The range that `find_containing_range` gives is one of the set and contains the point.
pub find_containing_range_sound :
    (rs : List Range) (point : ℕ) (r : Range)
    → find_containing_range rs point ≡ some r
    → (i : ℕ) × (get_elem? rs i ≡ some r) × Contains r point
unfolding containing_range
find_containing_range_sound rs point r e = elim (Option-cases (containing_range rs point)) [
  | inl ran ↦ absurd (cc (find_none rs point ran))
  | inr (i, ran) ↦
      let (x, f, c) = search_sound (suc (length rs)) point rs 0 (length rs) i ran in
      let at_i = sym (find_some rs point i ran) ∙ e in
      (i, at_i, subst (λ y. Contains y point) (nth_unique rs i i f at_i refl) c)
]

-- On a separated set it gives one for every point of the set.
pub find_containing_range_complete :
    (rs : List Range) (point : ℕ)
    → IsSeparated rs
    → covers rs point ≡ true
    → (r : Range) × (find_containing_range rs point ≡ some r)
unfolding containing_range
find_containing_range_complete rs point sep inside =
    let (k, s, e, c) = nth_of_covers rs point inside in
    let (i, ran) =
      search_complete (suc (length rs)) point 0 rs 0 (length rs) k s sep (omega arith) (omega arith)
        (omega arith) (index_bound rs k e) e c in
    let (x, f, _) = search_sound (suc (length rs)) point rs 0 (length rs) i ran in
    (x, find_some rs point i ran ∙ f)
