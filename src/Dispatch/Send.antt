-- ===== src/Dispatch/Send.antt =====
-- monitor.go (sendAllUpdates) and botManagement.go (changePositions): the updates of a round go to all
-- the bots of a monitor, one update after the other, and to the trades that are stored.
use lightspeed_trading_clean.Base.{
  String, Option, none, some, List, [], ◌∷◌, ◌==◌, string_eq, if◌then◌else◌, map,
}
use lightspeed_trading_clean.Base.Dict.{Dict}
use lightspeed_trading_clean.Numbers.{FloatOps, Conversions, DecimalOps}
use lightspeed_trading_clean.Update.{Update, open_ls, close_ls, change_ls}
use lightspeed_trading_clean.Bot.{Bot, Price, ChangeUpdate}
use lightspeed_trading_clean.Bot.Ignore.{ignore}
use lightspeed_trading_clean.Dispatch.{
  Around, Dispatched, open_for, close_for, change_for, open_positions, close_positions,
}
use lightspeed_trading_clean.Dispatch.Prices.{get_open_update, get_change_update}
use lightspeed_trading_clean.Trades.{Trade, store_trades}

-- What surrounds one update: the prices, and for each bot's hash its settings, exchange and clock.
pub record Surround (D : Type 0) : Type 0 where
  pub prices : Option (Dict String (Price D))
  pub around : String → Around D

module _ {D : Type 0} where
  -- `botMapToSlice`, each bot with what surrounds it.
  unfoldable pub bot_map_to_slice : Surround D → Dict String (Bot D) → List (Around D × Bot D)
  bot_map_to_slice s [] = []
  bot_map_to_slice s ((hash, bot) ∷ bots) = (s.around hash, bot) ∷ bot_map_to_slice s bots

  -- The bots are pointers: what became of them is in the monitor's map.
  unfoldable pub write_back : Dict String (Bot D) → List (Dispatched D) → Dict String (Bot D)
  write_back [] rs = []
  write_back (b ∷ bots) [] = b ∷ bots
  write_back ((hash, bot) ∷ bots) (r ∷ rs) = (hash, r.bot) ∷ write_back bots rs

  -- onFailedTradePrep, without its notification.
  abbrev pub untouched : Bot D → Dispatched D
  untouched bot = record { bot = bot; events = []; errs = [] }

module _ {F D : Type 0} ⦃fl : FloatOps F⦄ ⦃conv : Conversions F D⦄ ⦃dec : DecimalOps D⦄ where
  -- `changePositions`; without prices no bot does anything.
  unfoldable pub change_positions :
      Option (ChangeUpdate F D) → List (Around D × Bot D) → List (Dispatched D)
  unfolding change_for
  change_positions upd? [] = []
  change_positions none ((a, bot) ∷ bots) = untouched bot ∷ change_positions none bots
  change_positions (some upd) ((a, bot) ∷ bots) =
      change_for upd a bot ∷ change_positions (some upd) bots

  -- The switch on the type of an update.
  unfoldable pub dispatch_update :
      Update F D → Surround D → List (Around D × Bot D) → List (Dispatched D)
  unfolding open_positions close_positions change_positions get_open_update get_change_update
  dispatch_update upd s bots =
      if upd.type == open_ls
      then open_positions upd.symbol (get_open_update upd s.prices) bots
      else if upd.type == close_ls
      then close_positions upd bots
      else if upd.type == change_ls
      then change_positions (get_change_update upd s.prices) bots
      else []

  -- The goroutine of sendAllUpdates for the bots.
  unfoldable pub send_to_bots :
      List (Update F D × Surround D) → Dict String (Bot D) → Dict String (Bot D)
  unfolding bot_map_to_slice write_back dispatch_update
  send_to_bots [] bots = bots
  send_to_bots ((upd, s) ∷ updates) bots =
      send_to_bots updates (write_back bots (dispatch_update upd s (bot_map_to_slice s bots)))

  -- `sendAllUpdates`: the bots after it, and the trades it stores.
  unfoldable pub send_all_updates :
      List (Update F D × Surround D)
      → String
      → Dict String (Bot D)
      → Dict String (Bot D) × List (Trade F D)
  unfolding send_to_bots store_trades
  send_all_updates updates uid bots = (
    send_to_bots updates bots,
    store_trades (map (λ (u : Update F D × Surround D). u.0) updates) uid,
  )

  -- One bot that follows one update on its own.
  abbrev pub follow_one : Update F D → Surround D → String → Bot D → Bot D
  follow_one upd s hash bot =
      if upd.type == open_ls
      then (elim (get_open_update upd s.prices) [
        | none ↦ ignore bot upd.symbol
        | some open_upd ↦ (open_for open_upd (s.around hash) bot).bot
      ])
      else if upd.type == close_ls
      then (close_for upd (s.around hash) bot).bot
      else if upd.type == change_ls
      then (elim (get_change_update upd s.prices) [
        | none ↦ bot
        | some change_upd ↦ (change_for change_upd (s.around hash) bot).bot
      ])
      else bot

  -- One bot that follows the updates on its own, in their order.
  abbrev pub follow : List (Update F D × Surround D) → String → Bot D → Bot D
  follow [] hash bot = bot
  follow ((upd, s) ∷ updates) hash bot = follow updates hash (follow_one upd s hash bot)

  abbrev pub followed : List (Update F D × Surround D) → String → Option (Bot D) → Option (Bot D)
  followed updates hash none = none
  followed updates hash (some bot) = some (follow updates hash bot)
