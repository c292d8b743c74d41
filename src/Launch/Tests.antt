-- ===== src/Launch/Tests.antt =====
-- Three bots, one of them inactive, and two signals for one trader.
use lightspeed_trading_clean.Base.{String, ◌≡◌, some, string_eq, List, [], ◌∷◌, ◌++◌, keep}
use lightspeed_trading_clean.Base.Int.{ℤ}
use lightspeed_trading_clean.Base.Dict.{lookup}
use lightspeed_trading_clean.Numbers.{DecimalOps, int_decimals}
use lightspeed_trading_clean.Config.{BotConfig, active, new_bot_config}
use lightspeed_trading_clean.Launch.{
  SignalConfig, list_at, group_bots, starts_for, group_bots_lem, group_signals, group_signals_lem,
}

instance abbrev decimals : DecimalOps ℤ
decimals = int_decimals

abbrev bots : List (BotConfig ℤ)
bots =
    record (new_bot_config "u" 1) { bot_status = active; binance_id = "t" }
    ∷ new_bot_config "u" 2
    ∷ record (new_bot_config "v" 1) { bot_status = active; binance_id = "t" }
    ∷ []

group_bots_lem_example :
    list_at "t" (group_bots bots []) ≡ list_at "t" [] ++ keep (starts_for "t") bots
group_bots_lem_example = group_bots_lem bots [] "t"

abbrev signal : String → SignalConfig
signal url = record { user_id = "u"; binance_id = "t"; target_url = url }

group_signals_lem_example :
    lookup "t" (group_signals (signal "a" ∷ signal "b" ∷ []) []) ≡ some (signal "b" ∷ [])
group_signals_lem_example = group_signals_lem (signal "a" ∷ signal "b" ∷ []) "t"
