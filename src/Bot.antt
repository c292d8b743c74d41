-- ===== src/Bot.antt =====
-- botRuntime.go: a bot, its positions, and the two ends of its work: what it is given (the prices
-- of an update, the exchange client, the symbol data) and what it does, as a list of events.
-- Texts of logs, pings and errors are constructors; the mutex orders the calls.
pub mod Ignore
pub mod Hash
pub mod Quantity
pub mod Open
pub mod Close
pub mod Change
pub mod Manual
pub mod Join
mod Tests
use lightspeed_trading_clean.Base.{
  ℕ, String, Bool, true, false, List, [], ◌∷◌, ◌++◌, Option, none, some, ◌==◌, string_eq,
  if◌then◌else◌, map,
}
use lightspeed_trading_clean.Base.Int.{ℤ}
use lightspeed_trading_clean.Base.Dict.{Dict}
use lightspeed_trading_clean.Config.{BotConfig}
use lightspeed_trading_clean.Update.{Update}

-- `BotPosition` of classes/botPosition.go.
pub record BotPosition (D : Type 0) : Type 0 where
  pub symbol : String
  pub side : String
  pub qty : D
  pub entry : D
  pub leverage : D
  pub ignore_adds_until : ℕ
  pub tp : D
  pub sl : D
  pub exchange : String

-- `Bot`, without its mutexes, its exchange client and its logs. Positions are keyed by GetPosHash.
pub record Bot (D : Type 0) : Type 0 where
  pub user_id : String
  pub bot_id : ℕ
  pub exchange : String
  pub positions : Dict String (BotPosition D)
  pub open_delay_until : ℕ
  pub cur_balance : D
  pub ignore_list : List String
  pub pnl_watching : List String
  pub trader : String
  pub initial_balance : D

-- `Symbol` of classes/exchange.go.
pub record Symbol (D : Type 0) : Type 0 where
  pub name : String
  pub max_leverage : D
  pub qty_step : D
  pub min_qty : D
  pub max_qty : D
  pub price_step : D

-- `Price` of classes/update.go, without its error.
pub record Price (D : Type 0) : Type 0 where
  pub market : D
  pub is_supported : Bool

pub record OpenUpdate (F D : Type 0) : Type 0 where
  pub upd : Update F D
  pub symbol_prices : String → Price D
  pub trader_size : D
  pub exc_spread_diff_percent : String → D

pub record ChangeUpdate (F D : Type 0) : Type 0 where
  pub upd : Update F D
  pub symbol_prices : String → Price D
  pub is_increase : Bool

-- `OrderRes`: the quantity ordered, and "200" or the exchange's error.
pub record OrderRes (D : Type 0) : Type 0 where
  pub qty : D
  pub res_str : String

pub record Tpsl (D : Type 0) : Type 0 where
  pub tp : Option D
  pub sl : Option D

-- What the exchange answers to the calls of one operation (the interface ExchangeClient). `none` of
-- `set_leverage` is success, `none` of the others an error.
pub record ExchangeClient (D : Type 0) : Type 0 where
  pub set_leverage : String → D → Bool → Option String
  pub place_order : String → String → D → Bool → Option D → Option D → List (OrderRes D)
  pub get_my_position : String → Option (BotPosition D)
  pub get_my_positions : Option (Dict String (BotPosition D))
  pub get_usdt_balance : Option D

-- Why a bot decides not to trade.
pub data Refusal : Type 0 where
  unsupported_symbol position_exists close_only below_min_trader_size at_max_positions : Refusal
  open_delay_active blacklisted not_whitelisted spread_too_great balance_too_low : Refusal
  order_below_min_qty symbol_ignored already_closed no_close_mode no_sells_mode : Refusal
  opened_too_recently too_close_to_entry above_entry position_too_large : Refusal

-- The errors that an operation returns.
pub data BotError : Type 0 where
  no_trade : Refusal → BotError
  config_failed leverage_failed no_position_data position_not_found : BotError
  order_below_min : BotError
  order_failed : String → BotError

-- `strings.HasPrefix(err.Error(), "no trade decision:")`.
abbrev pub is_no_trade : BotError → Bool
is_no_trade (no_trade r) = true
is_no_trade _ = false

-- What an operation does to the outside, in order. `order` is a call of placeOrder: symbol, side,
-- quantity, reduce only, take profit, stop loss. `closing` starts onSuccessfullClose.
pub data Event (D : Type 0) : Type 0 where
  error_notif alert_notif log_line : BotError → Event D
  log_success log_max_leverage log_max_add : Event D
  set_leverage : String → D → Event D
  order : String → String → D → Bool → Option D → Option D → Event D
  opened_ping added_ping reduced_ping : BotPosition D → Event D
  closing : BotPosition D → Bool → Event D
  sold_ping : BotPosition D → Event D
  set_balance : Event D

-- How an operation ends: with its two results, or in a panic.
pub data Ending : Type 0 where
  returned : Bool → List (Option BotError) → Ending
  panicked : Ending

pub record Outcome (D : Type 0) : Type 0 where
  pub bot : Bot D
  pub events : List (Event D)
  pub ending : Ending

module _ {D : Type 0} where
  -- A return without a trade: a notification, a line in the bot's logs, one error.
  abbrev pub refuse : Bot D → List (Event D) → BotError → Outcome D
  refuse bot events e = record { bot = bot; events = events; ending = returned false (some e ∷ []) }

  -- A panic, after some events.
  abbrev pub panic : Bot D → List (Event D) → Outcome D
  panic bot events = record { bot = bot; events = events; ending = panicked }

  abbrev pub alert_and_log : BotError → List (Event D)
  alert_and_log e = alert_notif e ∷ log_line e ∷ []

  -- `makeErrorListFromOrderRes`.
  unfoldable pub make_error_list : List (OrderRes D) → List (Option BotError)
  make_error_list [] = []
  make_error_list (r ∷ rs) =
      (if r.res_str == "200" then none else some (order_failed r.res_str)) ∷ make_error_list rs

  -- The orders among some events.
  abbrev pub is_order : Event D → Bool
  is_order (order symbol side qty reduce tp sl) = true
  is_order _ = false
