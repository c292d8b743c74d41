-- ===== src/Base/Keys.antt =====
-- Types with a Boolean equality that decides paths: the numbers and the texts.
use Prim.Native.Nat.{ℕ}
use Prim.Native.String.{String}
use mathlib.Core.Path.{◌≡◌, refl}
use mathlib.Core.Logic.{◌↔◌}
use mathlib.Core.Bool.{Bool, true}
use text.Mathlib.Text.{◌==◌ as same_text}
use text.Mathlib.TextEquality.{eq_iff}
use lightspeed_trading_clean.Base.Tests.{nat_beq, nat_beq_iff}

-- A type whose values can be the keys of a map.
pub record MapKey {ℓ} (K : Type ℓ) : Type ℓ where
  pub same : K → K → Bool
  pub same_iff : (j k : K) → (same j k ≡ true) ↔ (j ≡ k)

instance abbrev pub string_eq : MapKey String
string_eq = record { same = same_text; same_iff = eq_iff }

instance abbrev pub number_eq : MapKey ℕ
number_eq = record { same = nat_beq; same_iff = nat_beq_iff }

module _ {ℓ} {K : Type ℓ} ⦃key : MapKey K⦄ where
  infix 50 ◌==◌
  abbrev pub ◌==◌ : K → K → Bool
  j == k = key.same j k

  pub ==_iff : (j k : K) → ((j == k) ≡ true) ↔ (j ≡ k)
  ==_iff = key.same_iff

  pub ==_refl : (k : K) → (k == k) ≡ true
  ==_refl k = (key.same_iff k k).1 refl
