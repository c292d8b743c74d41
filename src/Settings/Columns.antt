-- ===== src/Settings/Columns.antt =====
-- GetSqlKey of db/botConfig.go: the columns of the settings.
use lightspeed_trading_clean.Base.{String, Bool, true, false, Option, [], ◌∷◌, string_eq}
use lightspeed_trading_clean.Base.Dict.{Dict, lookup}

-- The types that a setting may have.
pub data Kind : Type 0 where
  text_kind number_kind integer_kind flag_kind items_kind : Kind

-- A row of the table of GetSqlKey.
pub record SqlKey : Type 0 where
  pub psql : String
  pub requires_restart : Bool
  pub expected : Kind

abbrev row : String → Kind → SqlKey
row psql expected = record { psql = psql; requires_restart = false; expected = expected }

abbrev pub fields : Dict String SqlKey
fields =
    ("botName", row "bot_name" text_kind)
    ∷ ("apiKeyRaw", record (row "api_key_raw" text_kind) { requires_restart = true })
    ∷ ("apiSecretRaw", record (row "api_secret_raw" text_kind) { requires_restart = true })
    ∷ ("exchange", row "exchange" text_kind)
    ∷ ("binanceID", row "binance_id" text_kind)
    ∷ ("excSpreadDiffPercent", row "exc_spread_diff_percent" number_kind)
    ∷ ("leverage", row "leverage" number_kind)
    ∷ ("initialOpenPercent", row "initial_open_percent" number_kind)
    ∷ ("maxAddMultiplier", row "max_add_multiplier" number_kind)
    ∷ ("openDelay", row "open_delay" number_kind)
    ∷ ("addDelay", row "add_delay" number_kind)
    ∷ ("oneCoinMaxPercent", row "one_coin_max_percent" number_kind)
    ∷ ("blacklistCoins", row "blacklist_coins" items_kind)
    ∷ ("whitelistCoins", row "whitelist_coins" items_kind)
    ∷ ("addPreventionPercent", row "add_prevention_percent" number_kind)
    ∷ ("blockAddsAboveEntry", row "block_adds_above_entry" flag_kind)
    ∷ ("maxOpenPositions", row "max_open_positions" integer_kind)
    ∷ ("autoTP", row "auto_tp" number_kind)
    ∷ ("autoSL", row "auto_sl" number_kind)
    ∷ ("minTraderSize", row "min_trader_size" number_kind)
    ∷ ("testMode", row "test_mode" flag_kind)
    ∷ ("notifyDest", row "notify_dest" text_kind)
    ∷ ("modeCloseOnly", row "mode_close_only" flag_kind)
    ∷ ("modeInverse", row "mode_inverse" flag_kind)
    ∷ ("modeNoClose", row "mode_no_close" flag_kind)
    ∷ ("modeBTCTriggerPrice", row "mode_btc_trigger_price" number_kind)
    ∷ ("modeNoSells", row "mode_no_sells" flag_kind)
    ∷ []

unfoldable pub get_sql_key : String → Option SqlKey
get_sql_key json_key = lookup json_key fields
