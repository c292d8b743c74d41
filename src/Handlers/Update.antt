-- ===== src/Handlers/Update.antt =====
-- handlersUser.go: onUpdateSettings, with the restart of a bot that runs. What an UPDATE writes to a row, from its
-- assignments and arguments, is a parameter; its condition names the row, and the columns of the condition are
-- never assigned.
use lightspeed_trading_clean.Base.{
  ℕ, String, Bool, Option, none, some, List, [], ◌∷◌, if◌then◌else◌, ◌&&◌, not,
}
use lightspeed_trading_clean.Numbers.{DecimalOps}
use lightspeed_trading_clean.Config.{BotConfig}
use lightspeed_trading_clean.Settings.{
  Value, Calls, Query as SettingsQuery, get_update_settings_sql, is_filled,
}
use lightspeed_trading_clean.Fleet.{Fleet, read_cpyt, read_record_cpyt, is_row}
use lightspeed_trading_clean.Fleet.Create.{World}
use lightspeed_trading_clean.Fleet.Balance.{is_active}
use lightspeed_trading_clean.Fleet.Start.{started, start_failed, start_panicked, Started}
use lightspeed_trading_clean.Fleet.Stop.{restart_bot_after_settings_change}
use lightspeed_trading_clean.Handlers.{
  Reply, reply, authorization_error, badly_formatted, internal_server_error, no_error,
  update_failed,
}

-- What surrounds a request: the conversions, what an UPDATE makes of a row, the keys that can be decrypted,
-- the flag `preventRestart`, and whether the query fails.
pub record UpdateWorld (F D : Type 0) : Type 0 where
  pub calls : Calls F
  pub update_row : SettingsQuery F → BotConfig D → BotConfig D
  pub decrypts : List ℕ → Bool
  pub prevent_restart : Bool
  pub update_fails : Bool

module _ {D : Type 0} where
  -- The UPDATE, on the rows that its condition names.
  unfoldable pub exec_update :
      (BotConfig D → BotConfig D) → String → ℕ → List (BotConfig D) → List (BotConfig D)
  exec_update update_row user_id bot_id [] = []
  exec_update update_row user_id bot_id (c ∷ cs) =
      (if is_row user_id bot_id c
        then record (update_row c) { user_id = c.user_id; bot_id = c.bot_id }
        else c)
      ∷ exec_update update_row user_id bot_id cs

module _ {F D : Type 0} where
  -- The response after a restart. An error of it is only logged.
  unfoldable pub reply_restart : Fleet F D → Option (Option (Started F D)) → Reply F D
  reply_restart fleet none = record { response = none; fleet = fleet }
  reply_restart fleet (some none) = reply 200 no_error fleet
  reply_restart fleet (some (some r)) = elim r.ending [
    | started n e ↦ reply 200 no_error r.fleet
    | start_failed is_server err ↦ reply 200 no_error r.fleet
    | start_panicked ↦ record { response = none; fleet = r.fleet }
  ]

module _ {F D : Type 0} ⦃dec : DecimalOps D⦄ where
  -- `onUpdateSettings` once the query is made.
  unfoldable pub run_update :
      World F D
      → UpdateWorld F D
      → String
      → ℕ
      → BotConfig D
      → SettingsQuery F
      → Fleet F D
      → Reply F D
  unfolding exec_update reply_restart restart_bot_after_settings_change is_active
  run_update w u user_id bot_id old_config query fleet =
      if is_filled query.update_failed
      then reply 400 (update_failed query.update_failed) fleet
      else if u.update_fails
      then reply 500 internal_server_error fleet
      else let updated = record fleet {
        configs = exec_update (u.update_row query) user_id bot_id fleet.configs;
      } in
        if query.do_restart_bot && (not u.prevent_restart && is_active old_config.bot_status)
        then reply_restart updated (
            restart_bot_after_settings_change w u.decrypts user_id bot_id old_config.binance_id
              updated)
        else reply 200 no_error updated

  -- `onUpdateSettings` after the decoding.
  unfoldable pub update_for_user :
      World F D → UpdateWorld F D → String → ℕ → List (String × Value F) → Fleet F D → Reply F D
  unfolding run_update get_update_settings_sql
  update_for_user w u user_id bot_id settings fleet =
      if w.fails read_cpyt
      then reply 500 internal_server_error fleet
      else elim (read_record_cpyt user_id bot_id fleet.configs) [
        | none ↦ reply 500 internal_server_error fleet
        | some old_config ↦
            run_update w u user_id bot_id old_config
              (get_update_settings_sql u.calls user_id bot_id settings old_config) fleet
      ]

  -- `onUpdateSettings`.
  unfoldable pub on_update_settings :
      World F D
      → UpdateWorld F D
      → Option String
      → Option (ℕ × List (String × Value F))
      → Fleet F D
      → Reply F D
  unfolding update_for_user
  on_update_settings w u none body fleet = reply 401 authorization_error fleet
  on_update_settings w u (some user_id) none fleet = reply 400 badly_formatted fleet
  on_update_settings w u (some user_id) (some (bot_id, settings)) fleet =
      update_for_user w u user_id bot_id settings fleet
