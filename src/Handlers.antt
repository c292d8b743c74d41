-- ===== src/Handlers.antt =====
-- handlersUser.go: what a user's requests do to the monitors and the rows. `auth` is the user's id, if the
-- token is valid, and `body` the decoded request, if it can be decoded.
pub mod Update
mod Restart
pub mod Isolation
mod Tests
use lightspeed_trading_clean.Base.{
  ℕ, zero, suc, ◌+◌, ◌-◌, String, Bool, true, false, Option, none, some, List, [], ◌∷◌, ◌++◌, ◌==◌,
  string_eq, if◌then◌else◌, ◌&&◌, not, length, take, replicate,
}
use lightspeed_trading_clean.Base.Dict.{Dict, lookup, insert}
use lightspeed_trading_clean.Base.Int.{ℤ, pos}
use lightspeed_trading_clean.Numbers.{DecimalOps}
use lightspeed_trading_clean.Config.{BotConfig, BotStatus, active, inactive}
use lightspeed_trading_clean.Settings.{webhook_is_ok}
use lightspeed_trading_clean.Caches.Logs.{BotLog}
use lightspeed_trading_clean.Fleet.{
  Fleet, User, Query, read_cpyt, read_all_cpyt, read_users, read_record_cpyt, get_monitor, get_bot,
  get_bot_hash,
}
use lightspeed_trading_clean.Fleet.Create.{World}
use lightspeed_trading_clean.Fleet.Balance.{is_active, read_all_records_cpyt}
use lightspeed_trading_clean.Fleet.Start.{
  StartBotParam, StartError, StartEnding, started, start_failed, start_panicked, Started, start_bot,
}
use lightspeed_trading_clean.Fleet.Stop.{stop_bot}

-- The error of a response, "" as `no_error`.
pub data ResponseError (D : Type 0) : Type 0 where
  no_error authorization_error badly_formatted internal_server_error no_user : ResponseError D
  bot_does_not_exist : ℕ → ResponseError D
  cannot_start cannot_stop : BotStatus → ResponseError D
  refused_start : StartError D → ResponseError D
  bad_webhook : String → ResponseError D
  update_failed : List String → ResponseError D

-- A response and the state after it; `none` is a panic, after which the connection is closed.
pub record Reply (F D : Type 0) : Type 0 where
  pub response : Option (ℕ × ResponseError D)
  pub fleet : Fleet F D

unfoldable pub is_inactive : BotStatus → Bool
is_inactive inactive = true
is_inactive _ = false

module _ {F D : Type 0} where
  abbrev pub reply : ℕ → ResponseError D → Fleet F D → Reply F D
  reply status err fleet = record { response = some (status, err); fleet = fleet }

  -- The response to what startBot returns.
  unfoldable pub reply_start : Started F D → Reply F D
  reply_start r = elim r.ending [
    | started n e ↦ reply 200 no_error r.fleet
    | start_failed is_server err ↦
        if is_server
        then reply 500 internal_server_error r.fleet
        else reply 400 (refused_start err) r.fleet
    | start_panicked ↦ record { response = none; fleet = r.fleet }
  ]

module _ {F D : Type 0} ⦃dec : DecimalOps D⦄ where
  -- `onStartBot` after the decoding.
  unfoldable pub start_for_user : World F D → (List ℕ → Bool) → String → ℕ → Fleet F D → Reply F D
  unfolding reply_start start_bot is_inactive
  start_for_user w decrypts user_id bot_id fleet =
      if w.fails read_cpyt
      then reply 500 internal_server_error fleet
      else (elim (read_record_cpyt user_id bot_id fleet.configs) [
        | none ↦ reply 400 (bot_does_not_exist bot_id) fleet
        | some old_config ↦
            (if not (is_inactive old_config.bot_status)
              then reply 400 (cannot_start old_config.bot_status) fleet
              else if not (decrypts old_config.api_key_raw && decrypts old_config.api_secret_raw)
              then reply 500 internal_server_error fleet
              else reply_start (
                  start_bot true w
                    (record {
                      user_id = user_id;
                      bot_id = bot_id;
                      exchange = old_config.exchange;
                      trader_uid = old_config.binance_id;
                    })
                    fleet))
      ])

  -- `onStartBot`.
  unfoldable pub on_start_bot :
      World F D → (List ℕ → Bool) → Option String → Option ℕ → Fleet F D → Reply F D
  unfolding start_for_user
  on_start_bot w decrypts none body fleet = reply 401 authorization_error fleet
  on_start_bot w decrypts (some user_id) none fleet = reply 400 badly_formatted fleet
  on_start_bot w decrypts (some user_id) (some bot_id) fleet =
      start_for_user w decrypts user_id bot_id fleet

  -- `onStopBot` after the decoding, with the goroutine of stopBot. Where that one panics the process ends, which
  -- is `none` here as well.
  unfoldable pub stop_for_user : (Query → Bool) → String → ℕ → Fleet F D → Reply F D
  unfolding stop_bot is_active
  stop_for_user fails user_id bot_id fleet =
      if fails read_cpyt
      then reply 500 internal_server_error fleet
      else (elim (read_record_cpyt user_id bot_id fleet.configs) [
        | none ↦ reply 400 (bot_does_not_exist bot_id) fleet
        | some old_config ↦
            (if not (is_active old_config.bot_status)
              then reply 400 (cannot_stop old_config.bot_status) fleet
              else (elim (stop_bot fails user_id bot_id old_config.binance_id fleet) [
                | none ↦ record { response = none; fleet = fleet }
                | some after ↦ reply 200 no_error after
              ]))
      ])

  -- `onStopBot`.
  unfoldable pub on_stop_bot : (Query → Bool) → Option String → Option ℕ → Fleet F D → Reply F D
  unfolding stop_for_user
  on_stop_bot fails none body fleet = reply 401 authorization_error fleet
  on_stop_bot fails (some user_id) none fleet = reply 400 badly_formatted fleet
  on_stop_bot fails (some user_id) (some bot_id) fleet = stop_for_user fails user_id bot_id fleet

module _ {F D : Type 0} where
  -- `onSetUserAlertWebhook` with UpdateUserAlertWebhook.
  unfoldable pub on_set_user_alert_webhook :
      Bool → Option String → Option String → Fleet F D → Reply F D
  unfolding webhook_is_ok
  on_set_user_alert_webhook update_fails none body fleet = reply 401 authorization_error fleet
  on_set_user_alert_webhook update_fails (some user_id) none fleet = reply 400 badly_formatted fleet
  on_set_user_alert_webhook update_fails (some user_id) (some webhook) fleet =
      if not (webhook_is_ok webhook)
      then reply 400 (bad_webhook webhook) fleet
      else (elim (lookup user_id fleet.users) [
        | none ↦ reply 400 no_user fleet
        | some u ↦
            (if update_fails
              then reply 500 internal_server_error fleet
              else reply 200 no_error (record fleet {
                users = insert user_id (record u { alert_webhook = webhook }) fleet.users;
              }))
      ])

-- What onGetLogs answers: a status, and the logs if it is 200.
pub record LogsReply : Type 0 where
  pub status : ℕ
  pub logs : List BotLog

module _ {F D : Type 0} where
  -- `onGetLogs`: `bot_id` is the parameter, missing or not a number as `none`; `logs_of` are the logs of a bot's hash.
  unfoldable pub on_get_logs :
      (Query → Bool)
      → (String → Option (List BotLog))
      → Option String
      → Option ℕ
      → Fleet F D
      → LogsReply
  on_get_logs fails logs_of none bot_id fleet = record { status = 401; logs = [] }
  on_get_logs fails logs_of (some user_id) none fleet = record { status = 400; logs = [] }
  on_get_logs fails logs_of (some user_id) (some bot_id) fleet =
      if fails read_cpyt
      then record { status = 500; logs = [] }
      else (elim (read_record_cpyt user_id bot_id fleet.configs) [
        | none ↦ record { status = 400; logs = [] }
        | some c ↦
            (if c.binance_id == ""
              then record { status = 500; logs = [] }
              else (elim (get_monitor c.binance_id fleet) [
                | none ↦ record { status = 400; logs = [] }
                | some mon ↦ (elim (get_bot (get_bot_hash user_id bot_id) mon) [
                  | none ↦ record { status = 400; logs = [] }
                  | some bot ↦ (elim (logs_of (get_bot_hash user_id bot_id)) [
                    | none ↦ record { status = 500; logs = [] }
                    | some logs ↦ record { status = 200; logs = logs }
                  ])
                ])
              ]))
      ])

-- `concealApiKey`, on bytes: padded with blanks to eight, and all but the first three starred.
unfoldable pub conceal_api_key : List ℕ → List ℕ
conceal_api_key key =
    let str = key ++ replicate (8 - length key) 32 in take 3 str ++ replicate (length str - 3) 42

module _ {D : Type 0} where
  -- One row as onListBots shows it; `none` is a key that cannot be decrypted.
  unfoldable pub show_bot : (List ℕ → Option (List ℕ)) → BotConfig D → Option (BotConfig D)
  unfolding conceal_api_key
  show_bot decrypt c =
      let secret : List ℕ = elim c.api_secret_raw [ [] ↦ [] | b ∷ bs ↦ replicate 6 42 ] in
      elim c.api_key_raw [
        | [] ↦ some (record c { user_id = ""; api_secret_raw = secret })
        | b ∷ bs ↦ (elim (decrypt (b ∷ bs)) [
          | none ↦ none
          | some key ↦ some (record c {
            user_id = "";
            api_secret_raw = secret;
            api_key_raw = conceal_api_key key;
          })
        ])
      ]

  -- The loop over the rows.
  unfoldable pub show_bots :
      (List ℕ → Option (List ℕ)) → List (BotConfig D) → Option (List (BotConfig D))
  unfolding show_bot
  show_bots decrypt [] = some []
  show_bots decrypt (c ∷ cs) = elim (show_bot decrypt c) [
    | none ↦ none
    | some shown ↦ (elim (show_bots decrypt cs) [ none ↦ none | some more ↦ some (shown ∷ more) ])
  ]

-- What OnListBots answers.
pub record BotsReply (D : Type 0) : Type 0 where
  pub status : ℕ
  pub bots : List (BotConfig D)

module _ {F D : Type 0} where
  -- `OnListBots`.
  unfoldable pub on_list_bots :
      (Query → Bool) → (List ℕ → Option (List ℕ)) → Option String → Fleet F D → BotsReply D
  unfolding show_bots read_all_records_cpyt
  on_list_bots fails decrypt none fleet = record { status = 401; bots = [] }
  on_list_bots fails decrypt (some user_id) fleet =
      if fails read_all_cpyt
      then record { status = 500; bots = [] }
      else (elim (show_bots decrypt (read_all_records_cpyt user_id fleet.configs)) [
        | none ↦ record { status = 500; bots = [] }
        | some bots ↦ record { status = 200; bots = bots }
      ])

-- What onGetLicense answers; a user without a row has the zero value.
pub record License (D : Type 0) : Type 0 where
  pub status : ℕ
  pub user : Option (User D)

module _ {F D : Type 0} where
  -- `onGetLicense`.
  unfoldable pub on_get_license : (Query → Bool) → Option String → Fleet F D → License D
  on_get_license fails none fleet = record { status = 401; user = none }
  on_get_license fails (some user_id) fleet =
      if fails read_users
      then record { status = 500; user = none }
      else record { status = 200; user = lookup user_id fleet.users }
