-- ===== src/Bot/Open.antt =====
-- Bot.openPosition.
pub mod Checks
pub mod Decision
pub mod Limits
use lightspeed_trading_clean.Base.{
  ℕ, ◌+◌, ◌-◌, String, Bool, true, false, Option, none, some, List, [], ◌∷◌, ◌++◌, ◌==◌, string_eq,
  ltb, leb, length, if◌then◌else◌, is_some, ◌&&◌, not,
}
use lightspeed_trading_clean.Base.Int.{ℤ, pos, negsuc, ltb_ℤ, eqb_ℤ, pos_part, neg_part}
use lightspeed_trading_clean.Base.Dict.{lookup, insert}
use lightspeed_trading_clean.Numbers.{FloatOps, Conversions, DecimalOps}
use lightspeed_trading_clean.Update.{switch_side}
use lightspeed_trading_clean.Config.{BotConfig, minus_one, is_setting_enabled}
use lightspeed_trading_clean.Bot.{
  Bot, BotPosition, Symbol, OpenUpdate, OrderRes, ExchangeClient, Refusal, unsupported_symbol,
  position_exists, close_only, below_min_trader_size, at_max_positions, open_delay_active,
  blacklisted, not_whitelisted, spread_too_great, balance_too_low, order_below_min_qty, BotError,
  no_trade, config_failed, leverage_failed, no_position_data, order_failed, Event, error_notif,
  log_line, log_success, log_max_leverage, set_leverage, order, opened_ping, Outcome, returned,
  panic, refuse, alert_and_log, make_error_list,
}
use lightspeed_trading_clean.Bot.Hash.{get_pos_hash}
use lightspeed_trading_clean.Bot.Ignore.{symbol_is_blacklisted, symbol_is_whitelisted}
use lightspeed_trading_clean.Bot.Quantity.{get_tpsl, tpsl_panics, bulk_panics}

-- The side to trade on: the other one in inverse mode.
unfoldable pub our_side : {D : Type 0} → BotConfig D → String → String
our_side config side = if config.mode_inverse then switch_side side else side

-- The results of the orders that went through.
unfoldable pub failures : {D : Type 0} → List (OrderRes D) → List (Option BotError)
failures [] = []
failures (r ∷ rs) = some (order_failed r.res_str) ∷ failures rs

module _ {D : Type 0} ⦃dec : DecimalOps D⦄ where
  -- The leverage that openPosition sets.
  abbrev pub open_leverage : BotConfig D → Symbol D → D
  open_leverage config data_ =
      if dec.ltb data_.max_leverage config.leverage then data_.max_leverage else config.leverage

module _ {F D : Type 0} ⦃dec : DecimalOps D⦄ where
  -- The quantity to buy, before it is split into orders. With a price of 0 the code panics (`open_panic`).
  unfoldable pub open_qty : Bot D → OpenUpdate F D → BotConfig D → Symbol D → D
  open_qty bot upd config symbol =
      let leverage =
        if dec.ltb symbol.max_leverage config.leverage
        then symbol.max_leverage
        else config.leverage in
      dec.mul
        (dec.div
          (dec.mul (dec.div config.initial_open_percent (dec.from_int (pos 100)))
            bot.initial_balance)
          (upd.symbol_prices bot.exchange).market)
        leverage

  -- The checks before the quantity, in order: the first that fails refuses the trade.
  unfoldable pub early_refusal : Bot D → OpenUpdate F D → BotConfig D → ℕ → Option Refusal
  early_refusal bot upd config now =
      let symbol = upd.upd.symbol in
      let spread = upd.exc_spread_diff_percent bot.exchange in
      let open_balance =
        dec.div (dec.mul bot.initial_balance config.initial_open_percent)
          (dec.from_int (pos 100)) in
      if not (upd.symbol_prices bot.exchange).is_supported
      then some unsupported_symbol
      else if is_some (lookup (get_pos_hash symbol (our_side config upd.upd.side)) bot.positions)
      then some position_exists
      else if config.mode_close_only
      then some close_only
      else if not (dec.eqb config.min_trader_size minus_one)
          && dec.ltb upd.trader_size config.min_trader_size
      then some below_min_trader_size
      else if not (eqb_ℤ config.max_open_positions (negsuc 0))
          && not (ltb_ℤ (pos (length bot.positions)) config.max_open_positions)
      then some at_max_positions
      else if is_setting_enabled config.open_delay && ltb now bot.open_delay_until
      then some open_delay_active
      else if symbol_is_blacklisted symbol config
      then some blacklisted
      else if not (symbol_is_whitelisted symbol config)
      then some not_whitelisted
      else if is_setting_enabled config.exc_spread_diff_percent
          && not (dec.ltb spread config.exc_spread_diff_percent)
      then some spread_too_great
      else if dec.ltb bot.cur_balance open_balance
      then some balance_too_low
      else none

  -- All checks, where the price is not 0.
  unfoldable pub open_refusal : Bot D → OpenUpdate F D → BotConfig D → Symbol D → ℕ → Option Refusal
  unfolding early_refusal
  open_refusal bot upd config data_ now = elim (early_refusal bot upd config now) [
    | some r ↦ some r
    | none ↦
        if dec.ltb (open_qty bot upd config data_) data_.min_qty
        then some order_below_min_qty
        else none
  ]

  -- The events of the leverage.
  abbrev leverage_events : OpenUpdate F D → BotConfig D → Symbol D → List (Event D)
  leverage_events upd config data_ =
      if dec.ltb data_.max_leverage config.leverage
      then log_max_leverage ∷ set_leverage upd.upd.symbol (open_leverage config data_) ∷ []
      else set_leverage upd.upd.symbol (open_leverage config data_) ∷ []

  -- Where openPosition panics, the events before: on a division by the price, by the price step in
  -- getTPSL, or in placeOrder, before an order is sent.
  unfoldable pub open_panic :
      Bot D
      → OpenUpdate F D
      → BotConfig D
      → Symbol D
      → ExchangeClient D
      → ℕ
      → Option (List (Event D))
  unfolding early_refusal
  open_panic bot upd config data_ exc now =
      if is_some (early_refusal bot upd config now)
      then none
      else if dec.eqb (upd.symbol_prices bot.exchange).market (dec.from_int (pos 0))
      then some []
      else if dec.ltb (open_qty bot upd config data_) data_.min_qty
      then none
      else if tpsl_panics data_ config
      then some []
      else if is_some (exc.set_leverage upd.upd.symbol (open_leverage config data_) true)
      then none
      else if bulk_panics data_ (open_qty bot upd config data_)
      then some (leverage_events upd config data_)
      else none

module _ (F : Type 0) {D : Type 0} ⦃fl : FloatOps F⦄ ⦃conv : Conversions F D⦄ where
  -- The quantity that went through, added up as floats.
  unfoldable pub qty_ordered : List (OrderRes D) → F → F
  qty_ordered [] sum = sum
  qty_ordered (r ∷ rs) sum =
      qty_ordered rs (if r.res_str == "200" then fl.add sum (conv.to_float r.qty) else sum)

module _ {F D : Type 0} ⦃fl : FloatOps F⦄ ⦃conv : Conversions F D⦄ ⦃dec : DecimalOps D⦄ where
  -- After the orders: nothing went through, or the exchange's view of the position is stored.
  -- `before` are the events so far.
  unfoldable pub after_orders :
      Bot D
      → OpenUpdate F D
      → BotConfig D
      → ExchangeClient D
      → ℕ
      → List (Event D)
      → List (OrderRes D)
      → Outcome D
  after_orders bot upd config exc after before results =
      let symbol = upd.upd.symbol in
      let delay = dec.int_part (dec.mul config.add_delay (dec.from_int (pos 100))) in
      let until = after + pos_part delay - neg_part delay in
      if fl.eqb (qty_ordered F results fl.zero) fl.zero
      then record { bot = bot; events = before; ending = returned false (failures results) }
      else (elim (exc.get_my_position symbol) [
        | none ↦
            refuse bot (before ++ error_notif no_position_data ∷ log_line no_position_data ∷ [])
              no_position_data
        | some got ↦
            let new_pos = record got { ignore_adds_until = until } in
            record {
              bot = record bot {
                positions =
                    insert (get_pos_hash symbol (our_side config upd.upd.side)) new_pos
                      bot.positions;
              };
              events = before ++ opened_ping new_pos ∷ log_success ∷ [];
              ending = returned true (make_error_list results);
            }
      ])

  -- The order, where nothing panics: leverage first, then placeOrder.
  unfoldable pub send_open :
      Bot D → OpenUpdate F D → BotConfig D → Symbol D → ExchangeClient D → ℕ → Outcome D
  unfolding after_orders
  send_open bot upd config data_ exc after =
      let symbol = upd.upd.symbol in
      let side = our_side config upd.upd.side in
      let tpsl = get_tpsl data_ side (upd.symbol_prices bot.exchange).market config in
      let too_high = dec.ltb data_.max_leverage config.leverage in
      let use_lev = if too_high then data_.max_leverage else config.leverage in
      let qty = open_qty bot upd config data_ in
      let noted =
        if too_high
        then log_max_leverage ∷ set_leverage symbol use_lev ∷ []
        else set_leverage symbol use_lev ∷ [] in
      elim (exc.set_leverage symbol use_lev true) [
        | some e ↦ refuse bot (noted ++ log_line leverage_failed ∷ []) leverage_failed
        | none ↦
            after_orders bot upd config exc after
              (noted ++ order symbol side qty false tpsl.tp tpsl.sl ∷ [])
              (exc.place_order symbol side qty false tpsl.tp tpsl.sl)
      ]

  -- `openPosition`. `config` is the result of getConfig, `data_` the exchange's data of the symbol,
  -- `now` and `after` the two readings of the clock.
  unfoldable pub open_position :
      Bot D
      → OpenUpdate F D
      → Option (BotConfig D)
      → Symbol D
      → ExchangeClient D
      → ℕ
      → ℕ
      → Outcome D
  unfolding send_open open_panic open_refusal
  open_position bot upd none data_ exc now after =
      refuse bot (error_notif config_failed ∷ log_line config_failed ∷ []) config_failed
  open_position bot upd (some config) data_ exc now after =
      elim (open_panic bot upd config data_ exc now) [
        | some events ↦ panic bot events
        | none ↦ (elim (open_refusal bot upd config data_ now) [
          | some r ↦ refuse bot (alert_and_log (no_trade r)) (no_trade r)
          | none ↦ send_open bot upd config data_ exc after
        ])
      ]
