-- ===== src/Bot/Close.antt =====
-- Bot.closePosition, and onSuccessfullClose that it starts.
pub mod Orders
pub mod Keys
use lightspeed_trading_clean.Base.{
  ℕ, String, starts_with, Bool, true, false, Option, none, some, List, [], ◌∷◌, ◌++◌, ◌==◌,
  string_eq, if◌then◌else◌, is_some, ◌&&◌, ◌||◌, not,
}
use lightspeed_trading_clean.Base.Int.{pos}
use lightspeed_trading_clean.Base.Dict.{lookup, erase}
use lightspeed_trading_clean.Numbers.{DecimalOps}
use lightspeed_trading_clean.Update.{Update, switch_side}
use lightspeed_trading_clean.Config.{BotConfig}
use lightspeed_trading_clean.Bot.{
  Bot, BotPosition, OrderRes, ExchangeClient, Refusal, symbol_ignored, already_closed,
  no_close_mode, BotError, no_trade, config_failed, Event, error_notif, alert_notif, log_success,
  order, closing, sold_ping, Outcome, returned, panicked, refuse, make_error_list,
}
use lightspeed_trading_clean.Bot.Hash.{get_pos_hash, position_hash}
use lightspeed_trading_clean.Bot.Ignore.{is_ignored, un_ignore}
use lightspeed_trading_clean.Bot.Open.{our_side}

module _ {D : Type 0} where
  -- The loop over the results: whether all of them are "200" or start with 130125 (the quantity is
  -- already 0), and whether one of them is "200".
  unfoldable pub all_130125 : List (OrderRes D) → Bool
  all_130125 [] = true
  all_130125 (r ∷ rs) = (r.res_str == "200" || starts_with r.res_str "130125") && all_130125 rs

  unfoldable pub some_good : List (OrderRes D) → Bool
  some_good [] = false
  some_good (r ∷ rs) = r.res_str == "200" || some_good rs

  -- The end of closePosition. `results[0]` panics where there is no result.
  unfoldable pub after_close :
      Bot D → BotPosition D → List (Event D) → List (OrderRes D) → Outcome D
  unfolding all_130125 some_good
  after_close bot p before [] = record {
    bot = bot;
    events = before ++ log_success ∷ [];
    ending = panicked;
  }
  after_close bot p before (r ∷ rs) =
      let all_gone = all_130125 (r ∷ rs) in
      record {
        bot = bot;
        events = before ++ log_success ∷ closing p (some_good (r ∷ rs) || all_gone) ∷ [];
        ending = returned true (if all_gone then none ∷ [] else make_error_list (r ∷ rs));
      }

  -- The checks after the ignore list, in order.
  unfoldable pub close_refusal : Option (BotPosition D) → Bool → BotConfig D → Option Refusal
  close_refusal found force config =
      if not (is_some found) && not force
      then some already_closed
      else if config.mode_no_close
      then some no_close_mode
      else none

module _ {D : Type 0} ⦃dec : DecimalOps D⦄ where
  -- The zero value of BotPosition, which a read of a missing key gives.
  abbrev pub zero_position : BotPosition D
  zero_position =
      let zero = dec.from_int (pos 0) in
      record {
        symbol = "";
        side = "";
        qty = zero;
        entry = zero;
        leverage = zero;
        ignore_adds_until = 0;
        tp = zero;
        sl = zero;
        exchange = "";
      }

  -- `bot.Positions[key]`.
  abbrev pub position_at : Option (BotPosition D) → BotPosition D
  position_at none = zero_position
  position_at (some p) = p

  -- The order of closePosition: all of the position, on the other side, reduce only.
  abbrev pub close_order : BotPosition D → Event D
  close_order p = order p.symbol (switch_side p.side) p.qty true none none

  -- `closePosition`. `config?` is the result of getConfig. The side is switched by the method SwitchSide,
  -- which agrees with `our_side` on the two sides that updates have.
  unfoldable pub close_position :
      {F : Type 0} → Bot D → Update F D → Bool → Option (BotConfig D) → ExchangeClient D → Outcome D
  unfolding is_ignored un_ignore close_refusal after_close
  close_position bot upd force config? exc =
      if is_ignored bot upd.symbol
      then refuse (un_ignore bot upd.symbol) [] (no_trade symbol_ignored)
      else (elim config? [
        | none ↦ refuse bot (error_notif config_failed ∷ []) config_failed
        | some config ↦
            let found = lookup (get_pos_hash upd.symbol (our_side config upd.side)) bot.positions in
            let p = position_at found in
            elim (close_refusal found force config) [
              | some r ↦ refuse bot (alert_notif (no_trade r) ∷ []) (no_trade r)
              | none ↦
                  after_close bot p (close_order p ∷ [])
                    (exc.place_order p.symbol (switch_side p.side) p.qty true none none)
            ]
      ])

module _ {D : Type 0} where
  -- `onSuccessfullClose`: the position is forgotten, the balance is read again, and the user is told.
  unfoldable pub on_successfull_close :
      Bot D → ExchangeClient D → BotPosition D → Bool → Bot D × List (Event D)
  on_successfull_close bot exc p ping = (
    record bot {
      positions = erase (position_hash p) bot.positions;
      cur_balance = elim exc.get_usdt_balance [ none ↦ bot.cur_balance | some b ↦ b ];
    },
    (if ping then sold_ping p ∷ [] else []),
  )

  -- The closes that some events started, once they have run.
  unfoldable pub run_closes : ExchangeClient D → List (Event D) → Bot D → Bot D
  unfolding on_successfull_close
  run_closes exc [] bot = bot
  run_closes exc (closing p ping ∷ es) bot =
      run_closes exc es (on_successfull_close bot exc p ping).0
  run_closes exc (_ ∷ es) bot = run_closes exc es bot
