-- ===== src/Config.antt =====
-- db/botConfig.go and the states of db/access.go: the settings of a bot.
use lightspeed_trading_clean.Base.{
  ℕ, String, Bool, true, false, List, [], Option, none, some, ◌==◌, string_eq, if◌then◌else◌,
}
use lightspeed_trading_clean.Base.Int.{ℤ, pos, negsuc}
use lightspeed_trading_clean.Numbers.{DecimalOps}

-- `BotStatus`, with the constants' names.
pub data BotStatus : Type 0 where
  active inactive starting stopping : BotStatus

-- `ParseBotStatus`.
unfoldable pub parse_bot_status : String → Option BotStatus
parse_bot_status s =
    if s == "active"
    then some active
    else if s == "inactive"
    then some inactive
    else if s == "starting"
    then some starting
    else if s == "stopping"
    then some stopping
    else none

-- The text of a status, as it is stored.
unfoldable pub show_bot_status : BotStatus → String
show_bot_status active = "active"
show_bot_status inactive = "inactive"
show_bot_status starting = "starting"
show_bot_status stopping = "stopping"

pub record BotConfig (D : Type 0) : Type 0 where
  pub user_id : String
  pub bot_id : ℕ
  pub bot_name : String
  pub bot_status : BotStatus
  pub api_key_raw : List ℕ
  pub api_secret_raw : List ℕ
  pub exchange : String
  pub binance_id : String
  pub exc_spread_diff_percent : D
  pub leverage : D
  pub initial_open_percent : D
  pub max_add_multiplier : D
  pub open_delay : D
  pub add_delay : D
  pub one_coin_max_percent : D
  pub blacklist_coins : List String
  pub whitelist_coins : List String
  pub add_prevention_percent : D
  pub block_adds_above_entry : Bool
  pub max_open_positions : ℤ
  pub auto_tp : D
  pub auto_sl : D
  pub min_trader_size : D
  pub test_mode : Bool
  pub notify_dest : String
  pub mode_close_only : Bool
  pub mode_inverse : Bool
  pub mode_no_close : Bool
  pub mode_btc_trigger_price : D
  pub mode_no_sells : Bool

module _ {D : Type 0} ⦃dec : DecimalOps D⦄ where
  -- The value that disables a setting.
  abbrev pub minus_one : D
  minus_one = dec.from_int (negsuc 0)

  -- `isSettingEnabled`.
  unfoldable pub is_setting_enabled : D → Bool
  is_setting_enabled value = if dec.eqb value minus_one then false else true

  -- `NewBotConfig`.
  unfoldable pub new_bot_config : String → ℕ → BotConfig D
  new_bot_config user_id bot_id = record {
    user_id = user_id;
    bot_id = bot_id;
    bot_name = "";
    bot_status = inactive;
    api_key_raw = [];
    api_secret_raw = [];
    exchange = "";
    binance_id = "";
    exc_spread_diff_percent = minus_one;
    leverage = dec.from_int (pos 1);
    initial_open_percent = dec.from_int (pos 1);
    max_add_multiplier = minus_one;
    open_delay = minus_one;
    add_delay = minus_one;
    one_coin_max_percent = minus_one;
    blacklist_coins = [];
    whitelist_coins = [];
    add_prevention_percent = minus_one;
    block_adds_above_entry = false;
    max_open_positions = negsuc 0;
    auto_tp = minus_one;
    auto_sl = minus_one;
    min_trader_size = minus_one;
    test_mode = true;
    notify_dest = "";
    mode_close_only = false;
    mode_inverse = false;
    mode_no_close = false;
    mode_btc_trigger_price = minus_one;
    mode_no_sells = false;
  }
