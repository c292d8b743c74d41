-- ===== src/Trader/Tests.antt =====
-- Two readings of a trader: BTC longer, ETH closed, SOL opened, XRP as it was.
use lightspeed_trading_clean.Base.{◌≡◌, refl, String, List, [], ◌∷◌, map, some}
use lightspeed_trading_clean.Base.Int.{ℤ, pos, negsuc, abs_ℤ}
use lightspeed_trading_clean.Numbers.{
  FloatOps, Conversions, int_floats, int_conversions, int_floats_laws,
}
use lightspeed_trading_clean.Update.{get_side}
use lightspeed_trading_clean.Trader.{
  TraderPosition, new_position, compare_positions, compare_olds, match_new, settle, swap_remove,
  same_position, open_update,
}
use lightspeed_trading_clean.Trader.Keys.{find, key_eq}
use lightspeed_trading_clean.Trader.Updates.{about, about-compare_positions}
use lightspeed_trading_clean.Trader.Replay.{replay, holdings, replay-compare_positions}

instance abbrev floats : FloatOps ℤ
floats = int_floats

instance abbrev conversions : Conversions ℤ ℤ
conversions = int_conversions

abbrev held : String → ℤ → TraderPosition ℤ
held coin qty = new_position qty (pos 10) coin (pos 7) (pos 0) (pos 9)

abbrev before : List (TraderPosition ℤ)
before = held "BTC" (pos 2) ∷ held "ETH" (negsuc 4) ∷ held "XRP" (pos 1) ∷ []

abbrev after : List (TraderPosition ℤ)
after = held "SOL" (pos 6) ∷ held "XRP" (pos 1) ∷ held "BTC" (pos 3) ∷ []

types :
    map {B = String × String × String}
      (λ u. (u.type, u.symbol, u.side))
      (compare_positions {D = ℤ} before after)
    ≡ ("CHANGE", "BTC", "Buy") ∷ ("CLOSE", "ETH", "Sell") ∷ ("OPEN", "SOL", "Buy") ∷ []
unfolding compare_positions compare_olds match_new settle swap_remove same_position new_position
    get_side
types = refl

about-compare_positions_example :
    about {D = ℤ} ("SOL", "Buy") (compare_positions before after)
    ≡ open_update (held "SOL" (pos 6)) ∷ []
unfolding new_position find key_eq get_side abs_ℤ
about-compare_positions_example =
    about-compare_positions ("SOL", "Buy") before after (refl, (refl, (refl, tt)))
      (refl, (refl, (refl, tt)))

replay-compare_positions_example :
    replay (compare_positions {D = ℤ} before after) (holdings before) ("BTC", "Buy") ≡ some (pos 3)
unfolding new_position find key_eq get_side abs_ℤ
replay-compare_positions_example =
    replay-compare_positions ℤ int_floats_laws ("BTC", "Buy") before after
      (refl, (refl, (refl, tt))) (refl, (refl, (refl, tt)))
