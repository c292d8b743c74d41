-- ===== src/Base/Dict.antt =====
-- A Go map as an association list: `m[k]`, `m[k] = v`, `delete(m, k)`, `len(m)`.
use lightspeed_trading_clean.Base.Tests.{if◌then◌else◌}
use lightspeed_trading_clean.Base.Lists.{length}
use lightspeed_trading_clean.Base.Keys.{MapKey, ◌==◌, ==_iff}
use Prim.Native.Nat.{◌+◌, ◌≤◌}
use mathlib.Core.Path.{◌≡◌, refl}
use mathlib.Core.Option.{Option, none, some}
use mathlib.Core.List.{List, [], ◌∷◌}
use native.Mathlib.Omega.{arith}

abbrev pub Dict {ℓ κ} : Type ℓ → Type κ → Type (ℓ ⊔ κ)
Dict K V = List (K × V)

module _ {ℓ κ} {K : Type ℓ} {V : Type κ} ⦃key : MapKey K⦄ where
  unfoldable pub lookup : K → Dict K V → Option V
  lookup k [] = none
  lookup k ((j, v) ∷ d) = if j == k then some v else lookup k d

  unfoldable pub insert : K → V → Dict K V → Dict K V
  insert k v [] = (k, v) ∷ []
  insert k v ((j, w) ∷ d) = if j == k then (k, v) ∷ d else (j, w) ∷ insert k v d

  unfoldable pub erase : K → Dict K V → Dict K V
  erase k [] = []
  erase k ((j, w) ∷ d) = if j == k then erase k d else (j, w) ∷ erase k d

  pub lookup-insert :
      (k j : K) (v : V) (d : Dict K V)
      → lookup j (insert k v d) ≡ (if k == j then some v else lookup j d)
  unfolding lookup insert
  lookup-insert k j v [] = refl
  lookup-insert k j v ((i, w) ∷ d) =
      ground (arith, ==_iff k j, ==_iff i k, ==_iff i j, lookup-insert k j v d)

  pub lookup-erase :
      (k j : K) (d : Dict K V) → lookup j (erase k d) ≡ (if k == j then none else lookup j d)
  unfolding lookup erase
  lookup-erase k j [] = ground arith
  lookup-erase k j ((i, w) ∷ d) =
      ground (arith, ==_iff k j, ==_iff i k, ==_iff i j, lookup-erase k j d)

  -- A new key adds one entry, a known key none.
  pub length-insert :
      (k : K) (v : V) (d : Dict K V)
      → length (insert k v d) ≡ (elim (lookup k d) [ none ↦ length d + 1 | some _ ↦ length d ])
  unfolding lookup insert
  length-insert k v [] = omega arith
  length-insert k v ((i, w) ∷ d) = ground (arith, length-insert k v d)

  pub length-erase-le : (k : K) (d : Dict K V) → length (erase k d) ≤ length d
  unfolding erase
  length-erase-le k [] = omega arith
  length-erase-le k ((i, w) ∷ d) = ground (arith, length-erase-le k d)
