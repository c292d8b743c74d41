-- ===== src/Bot/Change.antt =====
-- Bot.changePosition: the trader's position was increased or decreased.
pub mod Adds
pub mod Checks
pub mod Orders
pub mod Positions
use lightspeed_trading_clean.Base.{
  ℕ, String, Bool, true, false, Option, none, some, List, [], ◌∷◌, ◌++◌, ◌==◌, string_eq, ltb,
  if◌then◌else◌, ◌&&◌, ◌||◌, not, is_some,
}
use lightspeed_trading_clean.Base.Int.{pos}
use lightspeed_trading_clean.Base.Dict.{lookup, insert}
use lightspeed_trading_clean.Numbers.{FloatOps, Conversions, DecimalOps}
use lightspeed_trading_clean.Update.{Update, switch_side}
use lightspeed_trading_clean.Config.{BotConfig, is_setting_enabled}
use lightspeed_trading_clean.Bot.{
  Bot, BotPosition, Symbol, ChangeUpdate, OrderRes, Tpsl, ExchangeClient, Refusal, symbol_ignored,
  no_sells_mode, opened_too_recently, too_close_to_entry, above_entry, position_too_large, BotError,
  no_trade, config_failed, position_not_found, order_below_min, no_position_data, Event,
  error_notif, log_line, log_success, log_max_add, order, added_ping, reduced_ping, Outcome,
  returned, panic, refuse, alert_and_log, make_error_list,
}
use lightspeed_trading_clean.Bot.Hash.{get_pos_hash}
use lightspeed_trading_clean.Bot.Ignore.{is_ignored}
use lightspeed_trading_clean.Bot.Open.{our_side}
use lightspeed_trading_clean.Bot.Quantity.{get_tpsl, tpsl_panics, bulk_panics}

module _ {F D : Type 0} ⦃fl : FloatOps F⦄ ⦃conv : Conversions F D⦄ ⦃dec : DecimalOps D⦄ where
  -- The trader's ratio of new to old.
  abbrev pub trader_ratio : ChangeUpdate F D → D
  trader_ratio upd = conv.from_float (fl.div upd.upd.bin_qty upd.upd.old_bin_qty)

  -- An increase beyond the user's limit.
  abbrev pub is_capped : ChangeUpdate F D → BotConfig D → Bool
  is_capped upd config =
      is_setting_enabled config.max_add_multiplier
      && upd.is_increase
      && dec.ltb config.max_add_multiplier (trader_ratio upd)

  -- The quantity that makes the bot's change that of the trader.
  unfoldable pub change_qty : BotPosition D → ChangeUpdate F D → BotConfig D → D
  change_qty p upd config =
      let ratio = if is_capped upd config then config.max_add_multiplier else trader_ratio upd in
      dec.abs (dec.sub (dec.mul p.qty ratio) p.qty)

module _ {D : Type 0} ⦃dec : DecimalOps D⦄ where
  -- For a short, a price below the entry is above it.
  abbrev pub price_above_entry : String → D → D → Bool
  price_above_entry side price entry =
      if side == "Buy" then dec.ltb entry price else dec.ltb price entry

  -- The checks of an increase, in order, where they do not panic (`add_panics`).
  unfoldable pub add_refusal :
      Bot D → BotPosition D → BotConfig D → String → D → D → ℕ → Option Refusal
  unfolding is_setting_enabled
  add_refusal bot p config side price order_qty now =
      let hundred = dec.from_int (pos 100) in
      let diff_percent = dec.mul (dec.div (dec.sub price p.entry) price) hundred in
      let new_value = dec.div (dec.mul (dec.add order_qty p.qty) price) p.leverage in
      let max_value = dec.div (dec.mul bot.initial_balance config.one_coin_max_percent) hundred in
      if ltb now p.ignore_adds_until
      then some opened_too_recently
      else if is_setting_enabled config.add_prevention_percent
          && dec.ltb (dec.abs diff_percent) config.add_prevention_percent
      then some too_close_to_entry
      else if config.block_adds_above_entry && price_above_entry side price p.entry
      then some above_entry
      else if is_setting_enabled config.one_coin_max_percent && dec.ltb max_value new_value
      then some position_too_large
      else none

  -- The checks of an increase panic: the first divides by the price and the last by the leverage, where
  -- they are enabled and reached.
  unfoldable pub add_panics : BotPosition D → BotConfig D → String → D → ℕ → Bool
  unfolding is_setting_enabled
  add_panics p config side price now =
      let zero = dec.from_int (pos 0) in
      let diff_percent = dec.mul (dec.div (dec.sub price p.entry) price) (dec.from_int (pos 100)) in
      let prevents = is_setting_enabled config.add_prevention_percent in
      not (ltb now p.ignore_adds_until)
      && (if prevents && dec.eqb price zero
          then true
          else not (prevents && dec.ltb (dec.abs diff_percent) config.add_prevention_percent)
            && not (config.block_adds_above_entry && price_above_entry side price p.entry)
            && is_setting_enabled config.one_coin_max_percent
            && dec.eqb p.leverage zero)

  -- The order of an increase panics: on a division by the new quantity, in getTPSL or in placeOrder.
  unfoldable pub add_order_panics : BotPosition D → BotConfig D → Symbol D → D → Bool
  add_order_panics p config data_ order_qty =
      dec.eqb (dec.add p.qty order_qty) (dec.from_int (pos 0))
      || tpsl_panics data_ config
      || bulk_panics data_ order_qty

  -- The entry after an increase.
  abbrev pub new_entry : BotPosition D → D → D → D
  new_entry p order_qty price =
      dec.div (dec.add (dec.mul p.qty p.entry) (dec.mul order_qty price)) (dec.add p.qty order_qty)

  -- The order of an increase, with the limits around the new entry.
  abbrev pub add_order : BotPosition D → BotConfig D → Symbol D → String → String → D → D → Event D
  add_order p config data_ symbol side price order_qty =
      let tpsl = get_tpsl data_ side (new_entry p order_qty price) config in
      order symbol side order_qty false tpsl.tp tpsl.sl

  -- The quantity of a decrease: never more than there is.
  abbrev pub reduce_qty : BotPosition D → D → D
  reduce_qty p order_qty =
      if dec.ltb (dec.sub p.qty order_qty) (dec.from_int (pos 0)) then p.qty else order_qty

  abbrev pub reduce_order : BotPosition D → String → String → D → Event D
  reduce_order p symbol side order_qty =
      order symbol (switch_side side) (reduce_qty p order_qty) true none none

  -- After the order: the quantity and the entry of the stored position are read from the exchange.
  unfoldable pub after_change :
      Bot D
      → BotPosition D
      → String
      → String
      → Bool
      → ExchangeClient D
      → List (Event D)
      → List (OrderRes D)
      → Outcome D
  after_change bot p symbol key is_increase exc before results = elim (exc.get_my_position symbol) [
    | none ↦ refuse bot (before ++ error_notif no_position_data ∷ []) no_position_data
    | some api ↦
        let ours = record p { qty = api.qty; entry = api.entry } in
        record {
          bot = record bot { positions = insert key ours bot.positions };
          events =
              before
              ++ log_success ∷ (if is_increase then added_ping ours else reduced_ping ours) ∷ [];
          ending = returned true (make_error_list results);
        }
  ]

  -- An increase: the checks, then the order, where neither panics.
  unfoldable pub increase :
      Bot D
      → BotPosition D
      → String
      → String
      → D
      → D
      → BotConfig D
      → Symbol D
      → ExchangeClient D
      → ℕ
      → List (Event D)
      → Outcome D
  unfolding add_refusal after_change
  increase bot p symbol side price order_qty config data_ exc now before =
      elim (add_refusal bot p config side price order_qty now) [
        | some r ↦ refuse bot (before ++ alert_and_log (no_trade r)) (no_trade r)
        | none ↦
            let tpsl = get_tpsl data_ side (new_entry p order_qty price) config in
            after_change bot p symbol (get_pos_hash symbol side) true exc
              (before ++ add_order p config data_ symbol side price order_qty ∷ [])
              (exc.place_order symbol side order_qty false tpsl.tp tpsl.sl)
      ]

  -- A decrease: the order, on the other side, where placeOrder does not panic.
  unfoldable pub decrease :
      Bot D → BotPosition D → String → String → D → ExchangeClient D → List (Event D) → Outcome D
  unfolding after_change
  decrease bot p symbol side order_qty exc before =
      after_change bot p symbol (get_pos_hash symbol side) false exc
        (before ++ reduce_order p symbol side order_qty ∷ [])
        (exc.place_order symbol (switch_side side) (reduce_qty p order_qty) true none none)

module _ {F D : Type 0} ⦃fl : FloatOps F⦄ ⦃conv : Conversions F D⦄ ⦃dec : DecimalOps D⦄ where
  -- changePosition panics for a position that the bot has and a quantity that is large enough.
  unfoldable pub change_panics :
      Bot D → ChangeUpdate F D → BotConfig D → Symbol D → ℕ → BotPosition D → Bool
  unfolding change_qty add_refusal add_panics add_order_panics
  change_panics bot upd config data_ now p =
      let side = our_side config upd.upd.side in
      let price = (upd.symbol_prices bot.exchange).market in
      let order_qty = change_qty p upd config in
      if upd.is_increase
      then add_panics p config side price now
        || (not (is_some (add_refusal bot p config side price order_qty now))
            && add_order_panics p config data_ order_qty)
      else bulk_panics data_ (reduce_qty p order_qty)

  -- The part of changePosition for a position that the bot has.
  unfoldable pub change_found :
      Bot D
      → ChangeUpdate F D
      → BotConfig D
      → Symbol D
      → ExchangeClient D
      → ℕ
      → BotPosition D
      → Outcome D
  unfolding change_qty change_panics increase decrease
  change_found bot upd config data_ exc now p =
      let symbol = upd.upd.symbol in
      let side = our_side config upd.upd.side in
      let order_qty = change_qty p upd config in
      let before = if is_capped upd config then log_max_add ∷ [] else [] in
      if dec.ltb order_qty data_.min_qty
      then refuse bot (before ++ alert_and_log order_below_min) order_below_min
      else if change_panics bot upd config data_ now p
      then panic bot before
      else if upd.is_increase
      then increase bot p symbol side (upd.symbol_prices bot.exchange).market order_qty config data_
          exc now before
      else decrease bot p symbol side order_qty exc before

  -- `changePosition`. `config?` is the result of getConfig, `data_` the exchange's data of the symbol.
  unfoldable pub change_position :
      Bot D → ChangeUpdate F D → Option (BotConfig D) → Symbol D → ExchangeClient D → ℕ → Outcome D
  unfolding is_ignored change_found
  change_position bot upd none data_ exc now =
      refuse bot (error_notif config_failed ∷ log_line config_failed ∷ []) config_failed
  change_position bot upd (some config) data_ exc now =
      let key = get_pos_hash upd.upd.symbol (our_side config upd.upd.side) in
      if is_ignored bot upd.upd.symbol
      then refuse bot (log_line (no_trade symbol_ignored) ∷ []) (no_trade symbol_ignored)
      else if not upd.is_increase && config.mode_no_sells
      then refuse bot (alert_and_log (no_trade no_sells_mode)) (no_trade no_sells_mode)
      else elim (lookup key bot.positions) [
        | none ↦ refuse bot [] position_not_found
        | some p ↦ change_found bot upd config data_ exc now p
      ]
