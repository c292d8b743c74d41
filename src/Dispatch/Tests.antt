-- ===== src/Dispatch/Tests.antt =====
-- A bot that cannot afford a position, then hears of the close.
use lightspeed_trading_clean.Base.{
  ◌≡◌, ◌⊎◌, refl, String, true, some, none, List, [], ◌∷◌, string_eq, is_some,
}
use lightspeed_trading_clean.Base.Int.{ℤ, pos}
use lightspeed_trading_clean.Base.Dict.{lookup}
use lightspeed_trading_clean.Numbers.{
  FloatOps, Conversions, DecimalOps, int_floats, int_conversions, int_decimals,
}
use lightspeed_trading_clean.Update.{Update, open_ls, close_ls}
use lightspeed_trading_clean.Dispatch.Send.{Surround, send_all_updates, followed}
use lightspeed_trading_clean.Dispatch.Alone.{send_all_updates-follow}
use lightspeed_trading_clean.Config.{BotConfig, new_bot_config}
use lightspeed_trading_clean.Bot.{Bot, Price, OpenUpdate, no_trade, close_only}
use lightspeed_trading_clean.Bot.Hash.{get_pos_hash}
use lightspeed_trading_clean.Bot.Ignore.{is_ignored}
use lightspeed_trading_clean.Bot.Open.{our_side}
use lightspeed_trading_clean.Dispatch.{Around, Dispatched, open_for, Tally, returned_error}
use lightspeed_trading_clean.Dispatch.Cycle.{OpenPanicked, open_for_lem}

instance abbrev floats : FloatOps ℤ
floats = int_floats

instance abbrev conversions : Conversions ℤ ℤ
conversions = int_conversions

instance abbrev decimals : DecimalOps ℤ
decimals = int_decimals

abbrev bot : Bot ℤ
bot = record {
  user_id = "u";
  bot_id = 1;
  exchange = "bybit";
  positions = [];
  open_delay_until = 0;
  cur_balance = pos 1;
  ignore_list = "ETH" ∷ [];
  pnl_watching = [];
  trader = "t";
  initial_balance = pos 10000;
}

abbrev config : BotConfig ℤ
config = new_bot_config "u" 1

abbrev around : Around ℤ
around = record {
  config = some config;
  data_ = record {
    name = "ETH";
    max_leverage = pos 10;
    qty_step = pos 1;
    min_qty = pos 1;
    max_qty = pos 50;
    price_step = pos 1;
  };
  exc = record {
    set_leverage = λ symbol leverage restart. none;
    place_order = λ symbol side qty reduce tp sl. [];
    get_my_position = λ symbol. none;
    get_my_positions = none;
    get_usdt_balance = none;
  };
  now = 5;
  after = 6;
}

abbrev update : Update ℤ ℤ
update = record {
  type = "OPEN";
  symbol = "ETH";
  side = "Buy";
  bin_qty = pos 6;
  timestamp = pos 0;
  old_bin_qty = pos 3;
  entry = pos 100;
  pnl = pos 0;
  mark_price = pos 50;
}

abbrev price : String → Price ℤ
price exc = record { market = pos 50; is_supported = true }

abbrev opening : OpenUpdate ℤ ℤ
opening = record {
  upd = update;
  symbol_prices = price;
  trader_size = pos 1000;
  exc_spread_diff_percent = λ exc. pos 0;
}

open_for_lem_example :
    (is_some (
        lookup
          (get_pos_hash "ETH" (our_side config "Buy"))
          (open_for opening around bot).bot.positions)
      ≡ true)
    ⊎ (is_ignored (open_for opening around bot).bot "ETH" ≡ true)
    ⊎ OpenPanicked opening around config bot
open_for_lem_example = open_for_lem opening around config bot refl

abbrev results : List (Dispatched ℤ)
results =
    record {
      bot = bot;
      events = [];
      errs = none ∷ some (returned_error (no_trade close_only)) ∷ [];
    }
    ∷ []

abbrev zero_tally : Tally
zero_tally = record { num_err = 0; num_order = 0; num_no_trade_decision = 0 }

abbrev surround : Surround ℤ
surround = record { prices = none; around = λ hash. around }

-- An open without prices, then the close: the bot ignores the symbol in between.
send_all_updates-follow_example :
    lookup {K = String} "u_1"
      (send_all_updates
        ((record update { type = open_ls }, surround)
          ∷ (record update { type = close_ls }, surround)
          ∷ [])
        "t"
        (("u_1", bot) ∷ [])).0
    ≡ followed
        ((record update { type = open_ls }, surround)
          ∷ (record update { type = close_ls }, surround)
          ∷ [])
        "u_1"
        (lookup {K = String} "u_1" (("u_1", bot) ∷ []))
send_all_updates-follow_example =
    send_all_updates-follow
      ((record update { type = open_ls }, surround)
        ∷ (record update { type = close_ls }, surround)
        ∷ [])
      "t" "u_1" (("u_1", bot) ∷ [])
