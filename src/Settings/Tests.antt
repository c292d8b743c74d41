-- ===== src/Settings/Tests.antt =====
-- A request that sets a key of the exchange, a leverage and a list of coins.
use lightspeed_trading_clean.Base.{String, ◌≡◌, refl, some, List, [], ◌∷◌, string_eq}
use lightspeed_trading_clean.Base.Int.{ℤ, pos}
use lightspeed_trading_clean.Base.Dict.{lookup}
use lightspeed_trading_clean.Numbers.{DecimalOps, int_decimals}
use lightspeed_trading_clean.Config.{BotConfig, new_bot_config}
use lightspeed_trading_clean.Settings.{
  get_sql_key, Value, text, number, items, Calls, Arg, user_arg, bot_arg, fail, convert, has_kind,
  str_array, fail_items, scalar_arg, assign, breaks_exclusion, update_setting, update_settings,
  get_update_settings_sql,
}
use lightspeed_trading_clean.Settings.Arguments.{Aligned, get_update_settings_sql_lem}

instance abbrev decimals : DecimalOps ℤ
decimals = int_decimals

abbrev config : BotConfig ℤ
config = new_bot_config "alice" 1

abbrev calls : Calls ℤ
calls = record {
  to_float = λ n. n;
  to_int = λ x. x;
  encrypt = λ s. some (7 ∷ []);
  to_upper = λ s. s;
}

abbrev settings : List (String × Value ℤ)
settings =
    ("apiKeyRaw", text "key")
    ∷ ("leverage", number (pos 3))
    ∷ ("blacklistCoins", items (some "BTC" ∷ []))
    ∷ []

get_update_settings_sql_lem_example :
    (rest : List (Arg ℤ)) × ((get_update_settings_sql calls "alice" 1 settings config).args
      ≡ user_arg "alice" ∷ bot_arg 1 ∷ rest)
    × Aligned 3 (get_update_settings_sql calls "alice" 1 settings config).assignments rest
unfolding get_update_settings_sql update_settings update_setting get_sql_key lookup fail convert
    has_kind str_array fail_items scalar_arg assign breaks_exclusion new_bot_config
get_update_settings_sql_lem_example =
    get_update_settings_sql_lem "alice" 1 calls config settings refl
