-- ===== src/RangeSet/Merging.antt =====
-- messages/src/range.rs: the loop of `RangeSet::extend` without its array, as a recursion over the
-- sorted list, and what it computes.
use subsquid_network.Base.{
  ℕ, ◌+◌, ◌%◌, ◌≤◌, ◌<◌, ◌≡◌, refl, max, true, false, Option, none, some, List, [], ◌∷◌, arith, ltb,
  ◌∙◌, dec_lt,
}
use subsquid_network.RangeSet.{Range, new, covers, SeparatedFrom, u32_mod}
use subsquid_network.RangeSet.Sorting.{SortedFrom}

abbrev pub cons_some : Range → Option (List Range) → Option (List Range)
cons_some p none = none
cons_some p (some out) = some (p ∷ out)

-- `p` is the range that grows.
unfoldable pub merge : Range → List Range → Option (List Range)
merge p [] = some (p ∷ [])
merge p (c ∷ rest) = elim (ltb ((p.end + 1) % u32_mod) c.begin) [
  | true ↦ cons_some p (merge c rest)
  | false ↦ elim (new p.begin (max c.end p.end)) [ none ↦ none | some q ↦ merge q rest ]
]

pub SeparatedFrom-weaken :
    (b b' : ℕ) (rs : List Range) → b' ≤ b → SeparatedFrom b rs → SeparatedFrom b' rs
SeparatedFrom-weaken b b' [] h s = tt
SeparatedFrom-weaken b b' (r ∷ rs) h s = (omega arith, s.1, s.2, s.3)

SortedFrom-weaken : (b b' : ℕ) (rs : List Range) → b' ≤ b → SortedFrom b rs → SortedFrom b' rs
SortedFrom-weaken b b' [] h s = tt
SortedFrom-weaken b b' (r ∷ rs) h s = (omega arith, s.1, s.2, s.3)

pub record Merged (p : Range) (rest : List Range) (out : List Range) : Type 0 where
  pub separated : SeparatedFrom p.begin out
  pub same_points : (x : ℕ) → covers out x ≡ covers (p ∷ rest) x

abbrev joined : Range → Range → Range
joined p c = record { begin = p.begin; end = max c.end p.end }

merge_apart :
    (p c : Range) (rest : List Range)
    → p.end + 1 < u32_mod
    → p.end + 1 < c.begin
    → merge p (c ∷ rest) ≡ cons_some p (merge c rest)
unfolding merge
merge_apart p c rest k gap = ground arith

merge-joined :
    (p c : Range) (rest : List Range)
    → p.begin ≤ p.end
    → p.end + 1 < u32_mod
    → c.begin ≤ p.end + 1
    → merge p (c ∷ rest) ≡ merge (joined p c) rest
unfolding merge new
merge-joined p c rest h k touch = ground arith

Merged-apart :
    {p c : Range} {rest out : List Range}
    → p.begin ≤ p.end
    → p.end + 1 < u32_mod
    → p.end + 1 < c.begin
    → Merged c rest out
    → Merged p (c ∷ rest) (p ∷ out)
Merged-apart {p} {c} {rest} {out} h k gap m = record {
  separated =
      (omega arith, h, k, SeparatedFrom-weaken c.begin (p.end + 2) out (omega arith) m.separated);
  same_points = λ x. ground (arith, m.same_points x);
}

Merged-joined :
    {p c : Range} {rest out : List Range}
    → p.begin ≤ p.end
    → c.begin ≤ c.end
    → p.begin ≤ c.begin
    → c.begin ≤ p.end + 1
    → Merged (joined p c) rest out
    → Merged p (c ∷ rest) out
Merged-joined {p} {c} {rest} {out} h k lo touch m = record {
  separated = m.separated;
  same_points = λ x. ground (arith, m.same_points x);
}

-- Ranges sorted by `begin` and below the largest u32 merge without a panic.
pub merge-Merged :
    (p : Range) (rest : List Range)
    → p.begin ≤ p.end
    → p.end + 1 < u32_mod
    → SortedFrom p.begin rest
    → (out : List Range) × (merge p rest ≡ some out) × Merged p rest out
unfolding merge
merge-Merged p [] h k s =
    (p ∷ [], refl, record { separated = omega arith; same_points = λ x. refl })
merge-Merged p (c ∷ rest) h k s = elim (dec_lt (p.end + 1) c.begin) [
  | yes gap ↦
      let (out, ran, m) = merge-Merged c rest s.1 s.2 s.3 in
      (p ∷ out, rw (merge_apart p c rest k gap, ran), Merged-apart h k gap m)
  | no touch ↦
      let (out, ran, m) =
        merge-Merged (joined p c) rest (omega arith) (omega arith)
          (SortedFrom-weaken c.begin p.begin rest s.0 s.3) in
      (out, merge-joined p c rest h k (omega arith) ∙ ran, Merged-joined h s.1 s.0 (omega arith) m)
]
