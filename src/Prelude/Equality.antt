-- ===== src/Prelude/Equality.antt =====
-- Go's comparable types: a Boolean equality that decides the path.
use Prim.Native.Nat.{ℕ}
use Prim.Native.String.{String}
use mathlib.Core.Path.{◌≡◌, refl}
use mathlib.Core.Logic.{◌↔◌}
use mathlib.Core.Bool.{Bool, true}
use text.Mathlib.Text.{◌==◌ as str_eq}
use text.Mathlib.TextEquality.{eq_iff}
use velocity_engine_backend.Prelude.Tests.{nat_beq, nat_beq_iff}

-- `equals` is Go's `==`; it holds of two values exactly where they are the same.
pub record Comparable {ℓ} (K : Type ℓ) : Type ℓ where
  pub equals : K → K → Bool
  pub agrees : (j k : K) → (equals j k ≡ true) ↔ (j ≡ k)

module _ {ℓ} {K : Type ℓ} ⦃c : Comparable K⦄ where
  infix 50 ◌==◌
  abbrev pub ◌==◌ : K → K → Bool
  j == k = c.equals j k

  pub ==_iff : (j k : K) → ((j == k) ≡ true) ↔ (j ≡ k)
  ==_iff j k = c.agrees j k

  pub ==_self : (k : K) → (k == k) ≡ true
  ==_self k = (==_iff k k).1 refl

instance abbrev pub comparable_string : Comparable String
comparable_string = record { equals = str_eq; agrees = eq_iff }

instance abbrev pub comparable_nat : Comparable ℕ
comparable_nat = record { equals = nat_beq; agrees = nat_beq_iff }
