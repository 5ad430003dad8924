-- ===== src/RangeSet/InPlace.antt =====
-- messages/src/range.rs: the array loop of `RangeSet::extend` computes the recursion of `Merging`.
use mathlib.Core.List.{append_assoc}
use subsquid_network.Base.{
  ℕ, suc, ◌+◌, ◌-◌, ◌%◌, ◌≡◌, refl, ap, sym, ◌∙◌, max, true, false, ◌||◌, Option, none, some, List,
  [], ◌∷◌, ◌++◌, arith, ltb, Bool-cases, Option-cases, inl, inr, length, length-append, get_elem?,
  set, get_elem?-append, set-append, take-append, get_elem?_middle, set_middle,
}
use subsquid_network.RangeSet.{
  Range, new, sort, extend_body, extend_loop, truncated, extend, covers, IsProper, IsSeparated,
  u32_mod,
}
use subsquid_network.RangeSet.Sorting.{
  SortedFrom, SortedFrom-sort, covers-sort, covers-append, IsProper-append,
}
use subsquid_network.RangeSet.Merging.{merge, cons_some, merge-Merged, SeparatedFrom-weaken}

abbrev append_some : List Range → Option (List Range) → Option (List Range)
append_some done none = none
append_some done (some out) = some (done ++ out)

append_some-cons_some :
    (done : List Range) (p : Range) (o : Option (List Range))
    → append_some (done ++ p ∷ []) o ≡ append_some done (cons_some p o)
append_some-cons_some done p none = refl
append_some-cons_some done p (some out) = ap (λ x. some x) (append_assoc done (p ∷ []) out)

-- The array while `p` grows: what is final, `p`, what was read and is now free, what is to come.
abbrev layout : List Range → Range → List Range → List Range → List Range
layout done p read rest = done ++ (p ∷ (read ++ rest))

-- The slots that were read, after the first of them takes `c`.
abbrev shifted : List Range → Range → List Range
shifted [] c = []
shifted (x ∷ xs) c = xs ++ c ∷ []

length-shifted : (read : List Range) (c : Range) → length (shifted read c) ≡ length read
length-shifted [] c = refl
length-shifted (x ∷ xs) c = omega (arith, length-append xs (c ∷ []))

layout-push :
    (done read rest : List Range) (p c : Range)
    → set (layout done p read (c ∷ rest)) (length done + 1) c
      ≡ layout (done ++ p ∷ []) c (shifted read c) rest
layout-push done [] rest p c =
    set-append done (p ∷ (c ∷ rest)) 1 c ∙ sym (append_assoc done (p ∷ []) (c ∷ rest))
layout-push done (x ∷ xs) rest p c =
    set-append done (p ∷ (x ∷ (xs ++ c ∷ rest))) 1 c ∙ rw (append_assoc done, append_assoc xs)

next_read :
    (done read rest : List Range) (p c : Range)
    → get_elem? (layout done p read (c ∷ rest)) (length done + suc (length read)) ≡ some c
next_read done read rest p c =
    get_elem?-append done (p ∷ (read ++ c ∷ rest)) (suc (length read))
    ∙ get_elem?_middle read rest c

continue_loop : ℕ → ℕ → Option (ℕ × List Range) → Option (ℕ × List Range)
continue_loop rounds i none = none
continue_loop rounds i (some (pi, ranges)) = extend_loop rounds (i + 1) pi ranges

loop_step :
    (rounds i pi : ℕ) (ranges : List Range) (c p : Range)
    → get_elem? ranges i ≡ some c
    → get_elem? ranges pi ≡ some p
    → extend_loop (suc rounds) i pi ranges ≡ continue_loop rounds i (extend_body c p pi ranges)
unfolding extend_loop continue_loop
loop_step rounds i pi ranges c p hc hp = elim (Option-cases (extend_body c p pi ranges)) [
  | inl stop ↦ rw (hc, hp, stop, extend_loop)
  | inr (s, go) ↦ rw (hc, hp, go, extend_loop)
]

module _ (done read rest : List Range) (p c : Range) where
  abbrev array : List Range
  array = layout done p read (c ∷ rest)

  -- One round: `c` is read, and `p` is final, or grows, or the code panics.
  round :
      (out : Option (ℕ × List Range))
      → extend_body c p (length done) array ≡ out
      → extend_loop (suc (length rest)) (length done + suc (length read)) (length done) array
        ≡ continue_loop (length rest) (length done + suc (length read)) out
  round out e =
      loop_step (length rest) (length done + suc (length read)) (length done) array c p
        (next_read done read rest p c) (get_elem?_middle done (read ++ c ∷ rest) p)
      ∙ ap (continue_loop (length rest) (length done + suc (length read))) e

  body_apart :
      ltb ((p.end + 1) % u32_mod) c.begin ≡ true
      → extend_body c p (length done) array
        ≡ some (length done + 1, layout (done ++ p ∷ []) c (shifted read c) rest)
  unfolding extend_body
  body_apart gap =
      rw gap (ap (λ ranges. some (length done + 1, ranges)) (layout-push done read rest p c))

  body_panics :
      ltb ((p.end + 1) % u32_mod) c.begin ≡ false
      → new p.begin (max c.end p.end) ≡ none
      → extend_body c p (length done) array ≡ none
  unfolding extend_body
  body_panics touch e = rw (touch, e)

  body_joined :
      (q : Range)
      → ltb ((p.end + 1) % u32_mod) c.begin ≡ false
      → new p.begin (max c.end p.end) ≡ some q
      → extend_body c p (length done) array
        ≡ some (length done, layout done q (read ++ c ∷ []) rest)
  unfolding extend_body
  body_joined q touch e =
      rw (touch, e)
        (ap (λ ranges. some (length done, ranges))
          (set_middle done (read ++ c ∷ rest) p q
            ∙ ap (λ tail. done ++ (q ∷ tail)) (sym (append_assoc read (c ∷ []) rest))))

at_indices :
    (rounds : ℕ) {i i' pi pi' : ℕ} (ranges : List Range)
    → i ≡ i'
    → pi ≡ pi'
    → truncated (extend_loop rounds i pi ranges) ≡ truncated (extend_loop rounds i' pi' ranges)
at_indices rounds ranges e f = cc

-- The in-place loop, truncated, is the recursion behind what is final.
loop-merge :
    (rest done read : List Range) (p : Range)
    → truncated (
        extend_loop
          (length rest)
          (length done + suc (length read))
          (length done)
          (layout done p read rest))
      ≡ append_some done (merge p rest)
unfolding extend_loop truncated merge continue_loop
loop-merge [] done read p = ap (λ x. some x) (take-append done (p ∷ (read ++ [])) 1)
loop-merge (c ∷ rest) done read p = elim (Bool-cases (ltb ((p.end + 1) % u32_mod) c.begin)) [
  | inl gap ↦
      ap truncated (round done read rest p c _ (body_apart done read rest p c gap))
      ∙ rw (gap, merge)
          (at_indices (length rest) (layout (done ++ p ∷ []) c (shifted read c) rest)
              (omega (arith, length-append done (p ∷ []), length-shifted read c))
              (omega (arith, length-append done (p ∷ [])))
            ∙ loop-merge rest (done ++ p ∷ []) (shifted read c) c
            ∙ append_some-cons_some done p (merge c rest))
  | inr touch ↦ elim (Option-cases (new p.begin (max c.end p.end))) [
    | inl e ↦
        ap truncated (round done read rest p c _ (body_panics done read rest p c touch e))
        ∙ rw (touch, e, merge)
    | inr (q, e) ↦
        ap truncated (round done read rest p c _ (body_joined done read rest p c q touch e))
        ∙ rw (touch, e, merge)
            (at_indices (length rest) (layout done q (read ++ c ∷ []) rest)
                (omega (arith, length-append read (c ∷ []))) refl
              ∙ loop-merge rest done (read ++ c ∷ []) q)
  ]
]

abbrev pub merged : List Range → Option (List Range)
merged [] = some []
merged (p ∷ rest) = merge p rest

sub_one : (n : ℕ) → suc n - 1 ≡ n
sub_one n = omega arith

run_merged :
    (ranges : List Range) → truncated (extend_loop (length ranges - 1) 1 0 ranges) ≡ merged ranges
unfolding truncated extend_loop
run_merged [] = refl
run_merged (p ∷ rest) =
    rw (sub_one (length rest)) (loop-merge rest [] [] p ∙ append_some_nil (merge p rest))
  where
    append_some_nil : (o : Option (List Range)) → append_some [] o ≡ o
    append_some_nil none = refl
    append_some_nil (some out) = refl

-- The loop over the array with its two indices gives what merging the sorted list from left to
-- right gives: no index is out of bounds, and no range is read after it was overwritten.
pub extend-merged : (old iter : List Range) → extend old iter ≡ merged (sort (old ++ iter))
unfolding extend
extend-merged old iter = run_merged (sort (old ++ iter))

pub record Extended (old iter out : List Range) : Type 0 where
  pub separated : IsSeparated out
  pub same_points : (x : ℕ) → covers out x ≡ (covers old x || covers iter x)

merged-Extended :
    (ranges : List Range)
    → SortedFrom 0 ranges
    → (out : List Range) × (merged ranges ≡ some out)
      × IsSeparated out
      × ((x : ℕ) → covers out x ≡ covers ranges x)
merged-Extended [] s = ([], refl, tt, λ x. refl)
merged-Extended (p ∷ rest) s =
    let (out, ran, m) = merge-Merged p rest s.1 s.2 s.3 in
    (out, ran, SeparatedFrom-weaken p.begin 0 out (omega arith) m.separated, m.same_points)

-- `extend` on proper ranges that end below the largest u32 does not panic. The ranges of its
-- result are in order with a gap after each, and it has the points of both arguments and no other.
pub extend-Extended :
    (old iter : List Range)
    → IsProper old
    → IsProper iter
    → (out : List Range) × (extend old iter ≡ some out) × Extended old iter out
extend-Extended old iter h k =
    let all = old ++ iter in
    let (out, ran, separated, points) =
      merged-Extended (sort all) (SortedFrom-sort all (IsProper-append old iter h k)) in
    (
      out,
      extend-merged old iter ∙ ran,
      record {
        separated = separated;
        same_points = λ x. points x ∙ covers-sort x all ∙ covers-append x old iter;
      },
    )
