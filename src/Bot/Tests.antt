-- ===== src/Bot/Tests.antt =====
-- A bot with a long position in BTC, on an exchange that fills every order.
use lightspeed_trading_clean.Base.{
  ◌⊎◌, ◌≤◌, ◌≡◌, refl, inr, String, true, false, some, none, List, [], ◌∷◌, length, arith,
  string_eq, is_some,
}
use lightspeed_trading_clean.Base.Int.{ℤ, pos, ◌*ℤ◌, div_ℤ, abs_ℤ, ◌-ℤ◌}
use lightspeed_trading_clean.Base.Dict.{Dict, lookup}
use lightspeed_trading_clean.Numbers.{
  FloatOps, Conversions, DecimalOps, int_floats, int_conversions, int_decimals,
}
use lightspeed_trading_clean.Update.{Update}
use lightspeed_trading_clean.Config.{BotConfig, new_bot_config, is_setting_enabled}
use lightspeed_trading_clean.Trader.{TraderPosition}
use lightspeed_trading_clean.Bot.{
  Bot, BotPosition, Symbol, Price, OpenUpdate, ChangeUpdate, OrderRes, ExchangeClient, panicked,
}
use lightspeed_trading_clean.Bot.Hash.{get_pos_hash}
use lightspeed_trading_clean.Bot.Ignore.{
  contains, is_ignored, symbol_is_blacklisted, symbol_is_whitelisted,
}
use lightspeed_trading_clean.Bot.Open.{our_side, open_position}
use lightspeed_trading_clean.Bot.Open.Decision.{OpenOrders, orders-open_position}
use lightspeed_trading_clean.Bot.Open.Limits.{length-open_position}
use lightspeed_trading_clean.Bot.Close.{close_position, run_closes}
use lightspeed_trading_clean.Bot.Close.Orders.{EndsWith, MayClose, close_position-ending}
use lightspeed_trading_clean.Bot.Close.Keys.{Keyed, lookup-run_closes}
use lightspeed_trading_clean.Bot.Change.{change_position}
use lightspeed_trading_clean.Bot.Change.Orders.{ChangeOrders, orders-change_position}
use lightspeed_trading_clean.Bot.Change.Positions.{change_position-Keyed}
use lightspeed_trading_clean.Bot.Manual.{answered, check_manual_changes}
use lightspeed_trading_clean.Bot.Manual.Positions.{lookup-check_manual_changes}
use lightspeed_trading_clean.Bot.Join.{
  handle_trader_bot_differences, positions_of, Joined, handle_trader_bot_differences_lem,
}

instance abbrev floats : FloatOps ℤ
floats = int_floats

instance abbrev conversions : Conversions ℤ ℤ
conversions = int_conversions

instance abbrev decimals : DecimalOps ℤ
decimals = int_decimals

abbrev position : String → ℤ → BotPosition ℤ
position symbol qty = record {
  symbol = symbol;
  side = "Buy";
  qty = qty;
  entry = pos 100;
  leverage = pos 1;
  ignore_adds_until = 0;
  tp = pos 0;
  sl = pos 0;
  exchange = "bybit";
}

abbrev btc : BotPosition ℤ
btc = position "BTC" (pos 4)

abbrev bot : Bot ℤ
bot = record {
  user_id = "u";
  bot_id = 1;
  exchange = "bybit";
  positions = ("BuyBTC", btc) ∷ [];
  open_delay_until = 0;
  cur_balance = pos 10000;
  ignore_list = "XRP" ∷ [];
  pnl_watching = [];
  trader = "t";
  initial_balance = pos 10000;
}

abbrev config : BotConfig ℤ
config = record (new_bot_config "u" 1) { max_open_positions = pos 2 }

abbrev eth_data : Symbol ℤ
eth_data = record {
  name = "ETH";
  max_leverage = pos 10;
  qty_step = pos 1;
  min_qty = pos 1;
  max_qty = pos 50;
  price_step = pos 1;
}

abbrev exchange : ExchangeClient ℤ
exchange = record {
  set_leverage = λ symbol leverage restart. none;
  place_order = λ symbol side qty reduce tp sl. record { qty = qty; res_str = "200" } ∷ [];
  get_my_position = λ symbol. some (position symbol (pos 2));
  get_my_positions = some [];
  get_usdt_balance = some (pos 9000);
}

abbrev update : String → Update ℤ ℤ
update symbol = record {
  type = "OPEN";
  symbol = symbol;
  side = "Buy";
  bin_qty = pos 6;
  timestamp = pos 0;
  old_bin_qty = pos 3;
  entry = pos 100;
  pnl = pos 0;
  mark_price = pos 50;
}

abbrev price : String → Price ℤ
price exc = record { market = pos 50; is_supported = true }

abbrev opening : OpenUpdate ℤ ℤ
opening = record {
  upd = update "ETH";
  symbol_prices = price;
  trader_size = pos 1000;
  exc_spread_diff_percent = λ exc. pos 0;
}

abbrev growing : ChangeUpdate ℤ ℤ
growing = record { upd = update "BTC"; symbol_prices = price; is_increase = true }

orders-open_position_example : OpenOrders bot opening config eth_data exchange 5 6
orders-open_position_example = orders-open_position bot opening config eth_data exchange 5 6

length-open_position_example :
    length (open_position bot opening (some config) eth_data exchange 5 6).bot.positions ≤ 2
length-open_position_example =
    length-open_position bot opening config eth_data exchange 5 6 2 refl (omega arith)

abbrev filled : OrderRes ℤ
filled = record { qty = pos 4; res_str = "200" }

may_close : MayClose bot (update "BTC") false config
unfolding is_ignored contains get_pos_hash our_side lookup new_bot_config
may_close = record { heeded = refl; found = inr refl; closes = refl }

close_position-ending_example :
    EndsWith (close_position bot (update "BTC") false (some config) exchange) (filled ∷ [])
unfolding lookup get_pos_hash our_side new_bot_config
close_position-ending_example =
    close_position-ending bot (update "BTC") false config exchange btc filled [] may_close refl refl

lookup-run_closes_example :
    lookup "BuyBTC"
      (run_closes exchange
        (close_position bot (update "BTC") false (some config) exchange).events
        bot).positions
    ≡ none
unfolding get_pos_hash our_side lookup new_bot_config
lookup-run_closes_example =
    lookup-run_closes bot (update "BTC") false config exchange btc filled [] "BuyBTC" (refl, tt)
      may_close refl refl

orders-change_position_example : ChangeOrders bot growing config eth_data exchange 5
orders-change_position_example = orders-change_position bot growing config eth_data exchange 5

change_position-Keyed_example :
    Keyed (change_position bot growing (some config) eth_data exchange 5).bot.positions
    × (length (change_position bot growing (some config) eth_data exchange 5).bot.positions ≡ 1)
    × (is_some (
          lookup "BuyBTC"
            (change_position bot growing (some config) eth_data exchange 5).bot.positions)
        ≡ true)
unfolding lookup get_pos_hash
change_position-Keyed_example =
    change_position-Keyed bot growing config eth_data exchange 5 "BuyBTC" (refl, tt)

abbrev reported : Dict String (BotPosition ℤ)
reported = ("BuySOL", position "SOL" (pos 1)) ∷ []

lookup-check_manual_changes_example :
    lookup "BuyBTC" (check_manual_changes bot false (answered reported)).0.positions ≡ none
unfolding lookup
lookup-check_manual_changes_example = lookup-check_manual_changes bot reported "BuyBTC"

abbrev trading : List (TraderPosition ℤ)
trading =
    record {
      symbol = "SOL";
      side = "Buy";
      qty = pos 1;
      timestamp = pos 0;
      entry_price = pos 1;
      pnl = pos 0;
      mark_price = pos 1;
    }
    ∷ []

abbrev reporting : ExchangeClient ℤ
reporting = record exchange { get_my_positions = some reported }

handle_trader_bot_differences_lem_example :
    ((positions_of none reporting ≡ none)
      × (handle_trader_bot_differences bot trading false none reporting ≡ none))
    ⊎ ((users : Dict String (BotPosition ℤ)) × (after : Bot ℤ) × (positions_of none reporting
          ≡ some users)
        × (handle_trader_bot_differences bot trading false none reporting ≡ some after)
        × ((key symbol : String) → Joined bot trading false users after key symbol))
handle_trader_bot_differences_lem_example =
    handle_trader_bot_differences_lem bot trading false none reporting

abbrev worthless : OpenUpdate ℤ ℤ
worthless = record opening {
  symbol_prices = λ exchange. record { market = pos 0; is_supported = true };
}

-- A price that could not be parsed is 0 and supported.
open_at_zero : (open_position bot worthless (some config) eth_data exchange 5 6).ending ≡ panicked
unfolding open_position lookup ◌*ℤ◌ div_ℤ get_pos_hash our_side new_bot_config is_setting_enabled
    symbol_is_blacklisted contains symbol_is_whitelisted
open_at_zero = refl

add_at_zero :
    (change_position bot
      (record growing {
        symbol_prices = λ exchange. record { market = pos 0; is_supported = true };
      })
      (some (record config { add_prevention_percent = pos 1 }))
      eth_data
      exchange
      5).ending
    ≡ panicked
unfolding change_position lookup ◌*ℤ◌ get_pos_hash our_side new_bot_config abs_ℤ ◌-ℤ◌ div_ℤ
add_at_zero = refl
