-- ===== src/DataChunk/Text.antt =====
-- messages/src/data_chunk.rs: printing and parsing of numbers, and cutting at a separator.
use subsquid_network.Base.{
  ℕ, zero, suc, ◌+◌, ◌*◌, ◌/◌, ◌%◌, ◌^◌, ◌<◌, ◌≡◌, refl, sym, ap, ◌∙◌, false, some, List, [], ◌∷◌,
  ◌++◌, if◌then◌else◌, eqb, get_elem?, All, All-append, Bool-cases, inl, inr, arith,
}
use mathlib.Core.List.{append_assoc, append-nil}
use native.Mathlib.Nat.{mul_left_comm}
use subsquid_network.DataChunk.{Text, padded, split, extend_first, scan, scan_some, parse_u32}

-- The part of a text before the first `sep`.
unfoldable pub until : ℕ → Text → Text
until sep [] = []
until sep (c ∷ s) = let rest = until sep s in if eqb c sep then [] else c ∷ rest

abbrev pub Lacks : ℕ → Text → Type 0
Lacks sep = All (λ c. eqb c sep ≡ false)

-- A piece starts with what comes before its first separator.
pub first_piece : (sep : ℕ) (s : Text) → get_elem? (split sep s) 0 ≡ some (until sep s)
unfolding split until
first_piece sep [] = refl
first_piece sep (c ∷ s) = elim (Bool-cases (eqb c sep)) [
  | inl same ↦ rw same
  | inr other ↦ rw other (extended (split sep s) (first_piece sep s))
]
  where
    extended :
        (pieces : List Text)
        → get_elem? pieces 0 ≡ some (until sep s)
        → get_elem? (extend_first c pieces) 0 ≡ some (c ∷ until sep s)
    extended [] e = ground (arith, e)
    extended (piece ∷ pieces) e = ground (arith, e)

pub split_at :
    (sep : ℕ) (piece s : Text)
    → Lacks sep piece
    → split sep (piece ++ sep ∷ s) ≡ piece ∷ split sep s
unfolding split
split_at sep [] s h = ground arith
split_at sep (c ∷ piece) s h = rw h.0 (rw (split_at sep piece s h.1))

pub until-append :
    (sep : ℕ) (front s : Text) → Lacks sep front → until sep (front ++ s) ≡ front ++ until sep s
unfolding until
until-append sep [] s h = refl
until-append sep (c ∷ front) s h = rw h.0 (ap (λ rest. c ∷ rest) (until-append sep front s h.1))

-- No separator below the digits stands in a number.
pub padded-Lacks : (sep : ℕ) (width n : ℕ) → sep < b'0' → Lacks sep (padded width n)
unfolding padded
padded-Lacks sep zero n h = tt
padded-Lacks sep (suc width) n h =
    All-append (λ c. eqb c sep ≡ false) (padded width (n / 10)) ((b'0' + n % 10) ∷ [])
      (padded-Lacks sep width (n / 10) h) (ground arith, tt)

scan_digit :
    (d m : ℕ) (s : Text)
    → d < 10
    → m * 10 + d < 2 ^ 32
    → scan ((b'0' + d) ∷ s) m ≡ scan s (m * 10 + d)
unfolding scan
scan_digit d m s h fits = ground arith

-- A number's digits are read back, behind the digits that `acc` is made of.
pub scan-padded :
    (width n acc : ℕ) (s : Text)
    → n < 10 ^ width
    → acc * 10 ^ width + n < 2 ^ 32
    → scan (padded width n ++ s) acc ≡ scan s (acc * 10 ^ width + n)
unfolding padded
scan-padded zero n acc s h fits = ap (scan s) (omega (arith, h))
scan-padded (suc width) n acc s h fits = rw append_assoc (
    scan-padded width (n / 10) acc ((b'0' + n % 10) ∷ s) (omega (arith, h, power))
      (omega (arith, fits, product))
    ∙ scan_digit (n % 10) (acc * 10 ^ width + n / 10) s (omega arith) (omega (arith, fits, product))
    ∙ ap (scan s) (omega (arith, product)))
  where
    power : 10 ^ suc width ≡ 10 * 10 ^ width
    power = omega arith

    product : acc * 10 ^ suc width ≡ 10 * (acc * 10 ^ width)
    product = ap (λ p. acc * p) power ∙ mul_left_comm acc 10 (10 ^ width)

parse_u32-Lacks : (s : Text) → Lacks b'+' s → parse_u32 s ≡ scan_some s
unfolding parse_u32
parse_u32-Lacks [] h = refl
parse_u32-Lacks (c ∷ s) h = rw h.0 (refl)

scan_some-append : (s : Text) (c : ℕ) → scan_some (s ++ c ∷ []) ≡ scan (s ++ c ∷ []) 0
unfolding scan_some
scan_some-append [] c = refl
scan_some-append (d ∷ s) c = refl

-- A number of ten digits that a u32 holds is read back.
pub parse_u32-padded : (n : ℕ) → n < 2 ^ 32 → parse_u32 (padded 10 n) ≡ some n
unfolding padded scan
parse_u32-padded n h =
    parse_u32-Lacks (padded 10 n) (padded-Lacks b'+' 10 n (omega arith))
    ∙ scan_some-append (padded 9 (n / 10)) (b'0' + n % 10)
    ∙ ap (λ s. scan s 0) (sym (append-nil (padded 10 n)))
    ∙ scan-padded 10 n 0 [] (omega (arith, h)) (omega (arith, h))
    ∙ ap some (omega arith)
