-- ===== src/Trader/Keys.antt =====
-- Positions by their key, the symbol and the side: what the bots' maps are keyed by.
use text.Mathlib.TextEquality.{eq_iff}
use lightspeed_trading_clean.Base.{
  String, ◌≡◌, refl, ◌↔◌, Bool, true, ◌&&◌, Option, none, some, List, [], ◌∷◌, ◌==◌, arith,
  if◌then◌else◌, string_eq,
}
use lightspeed_trading_clean.Update.{Update}
use lightspeed_trading_clean.Trader.{TraderPosition, same_position}

abbrev pub Key : Type 0
Key = String × String

unfoldable pub key_eq : Key → Key → Bool
key_eq a b = a.0 == b.0 && a.1 == b.1

pub key_eq_iff : (a b : Key) → (key_eq a b ≡ true) ↔ (a ≡ b)
unfolding key_eq
key_eq_iff a b = ground (arith, eq_iff a.0 b.0, eq_iff a.1 b.1)

module _ {F : Type 0} where
  abbrev pub position_key : TraderPosition F → Key
  position_key p = (p.symbol, p.side)

  pub same_position-eq :
      (p q : TraderPosition F) → same_position p q ≡ key_eq (position_key p) (position_key q)
  unfolding same_position key_eq
  same_position-eq p q = refl

  unfoldable pub find : Key → List (TraderPosition F) → Option (TraderPosition F)
  find k [] = none
  find k (p ∷ ps) = if key_eq (position_key p) k then some p else find k ps

  pub find_key :
      (k : Key) (ps : List (TraderPosition F)) (p : TraderPosition F)
      → find k ps ≡ some p
      → position_key p ≡ k
  unfolding find
  find_key k [] p e = cc
  find_key k (q ∷ ps) p e = ground (arith, key_eq_iff (position_key q) k, find_key k ps p)

  -- No two positions have one key.
  abbrev pub Distinct : List (TraderPosition F) → Type 0
  Distinct [] = Unit {0}
  Distinct (p ∷ ps) = (find (position_key p) ps ≡ none) × Distinct ps

module _ {F D : Type 0} where
  abbrev pub update_key : Update F D → Key
  update_key u = (u.symbol, u.side)
