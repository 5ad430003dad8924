-- ===== src/Base/Equality.antt =====
-- Types whose values the program compares by `==`.
use Prim.Native.Nat.{ℕ}
use Prim.Native.String.{String}
use mathlib.Core.Path.{◌≡◌, refl}
use mathlib.Core.Logic.{◌↔◌, ◌⊎◌, inl, inr}
use mathlib.Core.Bool.{Bool, true, false}
use native.Mathlib.Omega.{arith}
use text.Mathlib.Text.{◌==◌ as str_eq}
use text.Mathlib.TextEquality.{eq_iff}
use subsquid_network.Base.Tests.{eqb, eqb_iff, Bool-cases}

pub record HasEq {ℓ} (A : Type ℓ) : Type ℓ where
  pub same : A → A → Bool
  pub same_iff : (a b : A) → (same a b ≡ true) ↔ (a ≡ b)

infix 50 ◌==◌
abbrev pub ◌==◌ {ℓ} : {A : Type ℓ} ⦃e : HasEq A⦄ → A → A → Bool
◌==◌ ⦃e⦄ = e.same

instance abbrev pub eq_of_nat : HasEq ℕ
eq_of_nat = record { same = eqb; same_iff = eqb_iff }

instance abbrev pub eq_of_string : HasEq String
eq_of_string = record { same = str_eq; same_iff = eq_iff }

module _ {ℓ} {A : Type ℓ} ⦃e : HasEq A⦄ where
  pub ==_refl : (a : A) → (a == a) ≡ true
  ==_refl a = (e.same_iff a a).1 refl

  pub ==→eq : (a b : A) → (a == b) ≡ true → a ≡ b
  ==→eq a b = (e.same_iff a b).0

  pub ==_of_ne : (a b : A) → ¬ (a ≡ b) → (a == b) ≡ false
  ==_of_ne a b h = elim (Bool-cases (a == b)) [
    | inl same ↦ absurd (h (==→eq a b same))
    | inr other ↦ other
  ]

  -- To split on a comparison, with the equation that it decides.
  pub ==_cases : (a b : A) → ((a == b ≡ true) × (a ≡ b)) ⊎ ((a == b ≡ false) × (¬ (a ≡ b)))
  ==_cases a b = elim (Bool-cases (a == b)) [
    | inl same ↦ inl (same, ==→eq a b same)
    | inr other ↦ inr (other, λ p. ground (arith, (e.same_iff a b).1 p))
  ]
