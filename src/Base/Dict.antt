-- ===== src/Base/Dict.antt =====
-- Maps (`HashMap`, `BTreeMap`) as association lists, and sets (`HashSet`) as lists of members.
-- Their laws are in `if` form, so that they hold at every key.
use Prim.Native.Nat.{◌+◌, ◌≤◌}
use mathlib.Core.Path.{◌≡◌, refl}
use mathlib.Core.Logic.{inl, inr}
use mathlib.Core.Bool.{Bool, true, false}
use mathlib.Core.Option.{Option, none, some}
use mathlib.Core.List.{List, [], ◌∷◌}
use native.Mathlib.Omega.{arith}
use subsquid_network.Base.Tests.{if◌then◌else◌}
use subsquid_network.Base.Lists.{length}
use subsquid_network.Base.Equality.{HasEq, ◌==◌, ==_refl, ==_cases}

abbrev pub is_some {ℓ} : {A : Type ℓ} → Option A → Bool
is_some none = false
is_some (some a) = true

module _ {ℓ κ} {K : Type ℓ} {V : Type κ} ⦃e : HasEq K⦄ where
  unfoldable pub lookup : K → List (K × V) → Option V
  lookup key [] = none
  lookup key ((j, v) ∷ m) = if j == key then some v else lookup key m

  unfoldable pub insert : K → V → List (K × V) → List (K × V)
  insert key v [] = (key, v) ∷ []
  insert key v ((j, old) ∷ m) = if j == key then (j, v) ∷ m else (j, old) ∷ insert key v m

  unfoldable pub remove : K → List (K × V) → List (K × V)
  remove key [] = []
  remove key ((j, old) ∷ m) = if j == key then remove key m else (j, old) ∷ remove key m

  abbrev pub has_key : K → List (K × V) → Bool
  has_key key m = is_some (lookup key m)

  -- Each key stands once.
  abbrev pub IsDict : List (K × V) → Type 0
  IsDict [] = Unit {0}
  IsDict ((key, v) ∷ m) = (has_key key m ≡ false) × IsDict m

  pub lookup-insert :
      (key j : K) (v : V) (m : List (K × V))
      → lookup j (insert key v m) ≡ (if key == j then some v else lookup j m)
  unfolding lookup insert
  lookup-insert key j v [] = refl
  lookup-insert key j v ((i, old) ∷ m) =
      ground (arith, e.same_iff key j, e.same_iff i key, e.same_iff i j, lookup-insert key j v m)

  pub lookup-insert_self :
      (key : K) (v : V) (m : List (K × V)) → lookup key (insert key v m) ≡ some v
  lookup-insert_self key v m = ground (arith, lookup-insert key key v m, ==_refl key)

  pub lookup-remove :
      (key j : K) (m : List (K × V))
      → lookup j (remove key m) ≡ (if key == j then none else lookup j m)
  unfolding lookup remove
  lookup-remove key j [] = ground arith
  lookup-remove key j ((i, old) ∷ m) =
      ground (arith, e.same_iff key j, e.same_iff i key, e.same_iff i j, lookup-remove key j m)

  pub lookup-remove_self : (key : K) (m : List (K × V)) → lookup key (remove key m) ≡ none
  lookup-remove_self key m = ground (arith, lookup-remove key key m, ==_refl key)

  pub remove_absent : (key : K) (m : List (K × V)) → lookup key m ≡ none → remove key m ≡ m
  unfolding lookup remove
  remove_absent key [] h = refl
  remove_absent key ((j, old) ∷ m) h = ground (arith, remove_absent key m)

  pub length-remove-le : (key : K) (m : List (K × V)) → length (remove key m) ≤ length m
  unfolding remove
  length-remove-le key [] = omega arith
  length-remove-le key ((j, old) ∷ m) = ground (arith, length-remove-le key m)

  pub length-insert_new :
      (key : K) (v : V) (m : List (K × V))
      → lookup key m ≡ none
      → length (insert key v m) ≡ length m + 1
  unfolding lookup insert
  length-insert_new key v [] h = omega arith
  length-insert_new key v ((j, old) ∷ m) h = ground (arith, length-insert_new key v m)

  pub length-insert-le :
      (key : K) (v : V) (m : List (K × V)) → length (insert key v m) ≤ length m + 1
  unfolding insert
  length-insert-le key v [] = omega arith
  length-insert-le key v ((j, old) ∷ m) = ground (arith, length-insert-le key v m)

  pub length-remove_held :
      (key : K) (v : V) (m : List (K × V))
      → IsDict m
      → lookup key m ≡ some v
      → length (remove key m) + 1 ≡ length m
  unfolding lookup remove
  length-remove_held key v [] d h = ground arith
  length-remove_held key v ((j, old) ∷ m) d h =
      ground (arith, e.same_iff j key, length-remove_held key v m d.1, remove_absent key m)

  pub insert-IsDict : (key : K) (v : V) (m : List (K × V)) → IsDict m → IsDict (insert key v m)
  unfolding lookup insert
  insert-IsDict key v [] d = (refl, tt)
  insert-IsDict key v ((j, old) ∷ m) d =
      ground
        (arith, lookup-insert key j v m, e.same_iff key j, e.same_iff j key, insert-IsDict key v m)

  pub remove-IsDict : (key : K) (m : List (K × V)) → IsDict m → IsDict (remove key m)
  unfolding remove
  remove-IsDict key [] d = tt
  remove-IsDict key ((j, old) ∷ m) d = ground (arith, lookup-remove key j m, remove-IsDict key m)

module _ {ℓ} {K : Type ℓ} ⦃e : HasEq K⦄ where
  unfoldable pub member : K → List K → Bool
  member key [] = false
  member key (j ∷ s) = if j == key then true else member key s

  -- `HashSet::insert`
  unfoldable pub put : K → List K → List K
  put key [] = key ∷ []
  put key (j ∷ s) = if j == key then j ∷ s else j ∷ put key s

  -- `HashSet::remove`
  unfoldable pub drop : K → List K → List K
  drop key [] = []
  drop key (j ∷ s) = if j == key then drop key s else j ∷ drop key s

  -- `HashSet::difference`
  unfoldable pub difference : List K → List K → List K
  difference [] t = []
  difference (key ∷ s) t = if member key t then difference s t else key ∷ difference s t

  abbrev pub IsSubset : List K → List K → Type ℓ
  IsSubset s t = (key : K) → member key s ≡ true → member key t ≡ true

  -- Equality of sets (`HashSet: PartialEq`): as many members, and the one's are the other's.
  unfoldable pub subset : List K → List K → Bool
  subset [] t = true
  subset (key ∷ s) t = if member key t then subset s t else false

  pub member-put :
      (key j : K) (s : List K) → member j (put key s) ≡ (if key == j then true else member j s)
  unfolding member put
  member-put key j [] = refl
  member-put key j (i ∷ s) =
      ground (arith, e.same_iff key j, e.same_iff i key, e.same_iff i j, member-put key j s)

  pub member-drop :
      (key j : K) (s : List K) → member j (drop key s) ≡ (if key == j then false else member j s)
  unfolding member drop
  member-drop key j [] = ground arith
  member-drop key j (i ∷ s) =
      ground (arith, e.same_iff key j, e.same_iff i key, e.same_iff i j, member-drop key j s)

  pub member-difference :
      (key : K) (s t : List K)
      → member key (difference s t) ≡ (if member key t then false else member key s)
  unfolding member difference
  member-difference key [] t = ground arith
  member-difference key (i ∷ s) t = elim (==_cases i key) [
    | inl (same, p) ↦ rw p (ground (arith, member-difference key s t, ==_refl key))
    | inr (other, p) ↦ ground (arith, member-difference key s t)
  ]

  pub subset-IsSubset : (s t : List K) → subset s t ≡ true → IsSubset s t
  unfolding subset member
  subset-IsSubset [] t h key m = ground arith
  subset-IsSubset (j ∷ s) t h key m = elim (==_cases j key) [
    | inl (same, p) ↦ rw (← p) (ground arith)
    | inr (other, p) ↦ subset-IsSubset s t (ground arith) key (ground arith)
  ]
