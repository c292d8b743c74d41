-- ===== src/Update/Sides.antt =====
-- The two ways to switch a side (classes/update.go).
use text.Mathlib.TextEquality.{eq_iff}
use lightspeed_trading_clean.Base.{String, ◌≡◌, ◌⊎◌, inl, inr, some, arith}
use lightspeed_trading_clean.Update.{switch_side, switch_side?}

abbrev pub IsSide : String → Type 0
IsSide s = (s ≡ "Buy") ⊎ (s ≡ "Sell")

pub switch_side-IsSide : (s : String) → IsSide (switch_side s)
unfolding switch_side
switch_side-IsSide s = ground arith

-- On a buy or a sell, switching twice gives the side back, and the method does what the function
-- does.
pub switch_side_twice : (s : String) → IsSide s → switch_side (switch_side s) ≡ s
unfolding switch_side
switch_side_twice s (inl e) = rw e
switch_side_twice s (inr e) = rw e

pub switch_side?-eq : (s : String) → IsSide s → switch_side? s ≡ some (switch_side s)
unfolding switch_side switch_side?
switch_side?-eq s h = ground (arith, eq_iff s "Buy", eq_iff s "Sell")
