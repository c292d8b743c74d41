-- ===== src/Fleet/Stop.antt =====
-- botStartup.go: stopBot with the goroutine that it starts, and restartBotAfterSettingsChange.
use lightspeed_trading_clean.Base.{
  ℕ, String, Bool, false, Option, none, some, List, ◌&&◌, not, string_eq, map, if◌then◌else◌,
  nat_beq, ◌-◌,
}
use lightspeed_trading_clean.Base.Dict.{insert}
use lightspeed_trading_clean.Numbers.{DecimalOps}
use lightspeed_trading_clean.Config.{inactive, stopping}
use lightspeed_trading_clean.Monitor.{ClientProxy, go_on, closed, panicked, return_clients, receive}
use lightspeed_trading_clean.Caches.Proxies.{return_group}
use lightspeed_trading_clean.Fleet.{
  Fleet, Monitor, Query, read_cpyt, prox_per_copy, prox_per_sign, get_bot_hash, get_bot,
  webhook_count, remove_bot_by_hash, remove_monitor, get_monitor, read_record_cpyt,
  set_bot_activity, give_back,
}
use lightspeed_trading_clean.Fleet.Create.{World}
use lightspeed_trading_clean.Fleet.Start.{StartBotParam, Started, start_bot}

module _ {F D : Type 0} where
  -- The proxies of a monitor without bots: all those it was made with, and the monitor is removed, if it has no
  -- webhooks; otherwise those of some clients that its loop gives back. `none` is the panic of that loop.
  unfoldable pub recover_proxies : String → Monitor F D → Fleet F D → Option (Fleet F D)
  unfolding remove_monitor
  recover_proxies uid mon fleet =
      if nat_beq (webhook_count mon) 0
      then some (record (remove_monitor mon.uid fleet) {
        available = return_group fleet.available mon.proxies;
      })
      else (elim (receive (return_clients (prox_per_copy - prox_per_sign)) mon.http_clients) [
        | closed ↦ none
        | panicked ↦ none
        | go_on back kept ↦ some (record fleet {
          running_mons = insert uid (record mon { http_clients = kept }) fleet.running_mons;
          available = return_group fleet.available (map (λ (c : ClientProxy). c.proxy) back);
        })
      ])

module _ {F D : Type 0} ⦃dec : DecimalOps D⦄ where
  -- `stopBot` and the goroutine that it leaves behind; its result is nil on every path.
  unfoldable pub stop_bot : (Query → Bool) → String → ℕ → String → Fleet F D → Option (Fleet F D)
  unfolding recover_proxies
  stop_bot fails user_id bot_id trader_uid fleet =
      let hash = get_bot_hash user_id bot_id in
      let busy = set_bot_activity fails user_id bot_id stopping fleet in
      elim (get_monitor trader_uid busy) [
        | none ↦ some (set_bot_activity fails user_id bot_id inactive busy)
        | some mon ↦ (elim (get_bot hash mon) [
          | none ↦ some (set_bot_activity fails user_id bot_id inactive busy)
          | some bot ↦
              let (smaller, remaining) = remove_bot_by_hash hash mon in
              let removed = record busy {
                running_mons = insert trader_uid smaller busy.running_mons;
              } in
              let stopped = set_bot_activity fails user_id bot_id inactive removed in
              let paid = give_back fails user_id bot.initial_balance stopped in
              if nat_beq remaining 0 then recover_proxies trader_uid smaller paid else some paid
        ])
      ]

  -- `restartBotAfterSettingsChange`; `decrypts` says whether the two keys can be decrypted. The new
  -- trader's uid is read from the field Exchange, as in the code. `none` is a
  -- panic in stopBot's goroutine, which is taken to end before startBot begins.
  unfoldable pub restart_bot_after_settings_change :
      World F D → (List ℕ → Bool) → String → ℕ → String → Fleet F D → Option (Option (Started F D))
  unfolding stop_bot start_bot
  restart_bot_after_settings_change w decrypts user_id bot_id old_trader_id fleet =
      if w.fails read_cpyt
      then some none
      else (elim (read_record_cpyt user_id bot_id fleet.configs) [
        | none ↦ some none
        | some new_config ↦
            (if not (decrypts new_config.api_key_raw && decrypts new_config.api_secret_raw)
              then some none
              else (elim (stop_bot w.fails user_id bot_id old_trader_id fleet) [
                | none ↦ none
                | some stopped ↦
                    let req : StartBotParam = record {
                      user_id = user_id;
                      bot_id = bot_id;
                      exchange = new_config.exchange;
                      trader_uid = new_config.exchange;
                    } in
                    some (some (start_bot false w req stopped))
              ]))
      ])
