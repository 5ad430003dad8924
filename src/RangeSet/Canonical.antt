-- ===== src/RangeSet/Canonical.antt =====
-- messages/src/range.rs: a separated list is determined by its points, so the result of `extend`
-- does not depend on the order or the cut of what it is given.
use subsquid_network.Base.{
  ℕ, ◌+◌, ◌<◌, ◌≡◌, refl, sym, ap, subst, ◌∙◌, false, some, List, [], ◌∷◌, ◌++◌, arith,
}
use subsquid_network.RangeSet.{Range, extend, covers, SeparatedFrom, IsProper}
use subsquid_network.RangeSet.Sorting.{covers-append}
use subsquid_network.RangeSet.InPlace.{extend-Extended}

not_covers_below : (b x : ℕ) (rs : List Range) → SeparatedFrom b rs → x < b → covers rs x ≡ false
not_covers_below b x [] s h = refl
not_covers_below b x (r ∷ rs) s h = ground (arith, not_covers_below (r.end + 2) x rs s.3)

module _ (b : ℕ) (r t : Range) (rs ts : List Range) (s : SeparatedFrom b (r ∷ rs))
    (q : SeparatedFrom b (t ∷ ts)) (same : (x : ℕ) → covers (r ∷ rs) x ≡ covers (t ∷ ts) x) where
  begin_not_lt : ¬ (r.begin < t.begin)
  begin_not_lt h = ground (arith, same r.begin, not_covers_below (t.end + 2) r.begin ts q.3)

  end_not_lt : r.begin ≡ t.begin → ¬ (r.end < t.end)
  end_not_lt e h = ground (arith, same (r.end + 1), not_covers_below (r.end + 2) (r.end + 1) rs s.3)

  tails_agree : r.end ≡ t.end → (x : ℕ) → covers rs x ≡ covers ts x
  tails_agree e x =
      ground (
        arith,
        same x,
        not_covers_below (r.end + 2) x rs s.3,
        not_covers_below (t.end + 2) x ts q.3,
      )

range_eq : (r t : Range) → r.begin ≡ t.begin → r.end ≡ t.end → r ≡ t
range_eq r t p q = λ i. record { begin = p i; end = q i }

-- Two separated lists with the same points are the same list.
pub separated_unique :
    (b : ℕ) (rs ts : List Range)
    → SeparatedFrom b rs
    → SeparatedFrom b ts
    → ((x : ℕ) → covers rs x ≡ covers ts x)
    → rs ≡ ts
separated_unique b [] [] s q same = refl
separated_unique b (r ∷ rs) [] s q same = absurd (ground (arith, same r.begin))
separated_unique b [] (t ∷ ts) s q same = absurd (ground (arith, same t.begin))
separated_unique b (r ∷ rs) (t ∷ ts) s q same =
    let back = λ (x : ℕ). sym (same x) in
    let e : r.begin ≡ t.begin =
      omega (arith, begin_not_lt b r t rs ts s q same, begin_not_lt b t r ts rs q s back) in
    let f : r.end ≡ t.end =
      omega (arith, end_not_lt b r t rs ts s q same e, end_not_lt b t r ts rs q s back (sym e)) in
    let tails =
      separated_unique (r.end + 2) rs ts s.3 (subst (λ k. SeparatedFrom (k + 2) ts) (sym f) q.3)
        (tails_agree b r t rs ts s q same f) in
    cc (range_eq r t e f, tails)

-- When all ranges are proper, and so end below the largest u32: whatever the order in which they
-- arrive, and however they are cut into stored and new ones, the list that `extend` stores is the
-- same, as it depends on the points alone.
pub extend-order_free :
    (old iter old' iter' : List Range)
    → IsProper old
    → IsProper iter
    → IsProper old'
    → IsProper iter'
    → ((x : ℕ) → covers (old ++ iter) x ≡ covers (old' ++ iter') x)
    → extend old iter ≡ extend old' iter'
extend-order_free old iter old' iter' h k h' k' same =
    let (out, ran, m) = extend-Extended old iter h k in
    let (out', ran', m') = extend-Extended old' iter' h' k' in
    ran
    ∙ ap (λ x. some x)
        (separated_unique 0 out out' m.separated m'.separated λ x.
          m.same_points x
          ∙ sym (covers-append x old iter)
          ∙ same x
          ∙ covers-append x old' iter'
          ∙ sym (m'.same_points x))
    ∙ sym ran'
