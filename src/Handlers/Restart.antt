-- ===== src/Handlers/Restart.antt =====
-- handlersUser.go: what onUpdateSettings leaves of the rows of other users.
use lightspeed_trading_clean.Base.{
  ℕ, String, ◌≡◌, refl, inl, inr, Bool, false, Option, none, some, List, [], ◌∷◌, ◌==◌, string_eq,
  number_eq, ◌&&◌, not, arith, Bool-cases, Option-cases, ==_iff,
}
use lightspeed_trading_clean.Numbers.{DecimalOps}
use lightspeed_trading_clean.Config.{BotConfig}
use lightspeed_trading_clean.Settings.{
  Value, Query as SettingsQuery, get_update_settings_sql, is_filled,
}
use lightspeed_trading_clean.Fleet.{Fleet, read_cpyt, read_record_cpyt}
use lightspeed_trading_clean.Fleet.Create.{World}
use lightspeed_trading_clean.Fleet.Balance.{is_active, read_all_records_cpyt}
use lightspeed_trading_clean.Fleet.Start.{StartBotParam, Started, start_bot}
use lightspeed_trading_clean.Fleet.Stop.{stop_bot, restart_bot_after_settings_change}
use lightspeed_trading_clean.Fleet.Others.{Untouched, Untouched-trans}
use lightspeed_trading_clean.Fleet.Apart.{start_bot-Untouched, stop_bot-Untouched}
use lightspeed_trading_clean.Handlers.Update.{
  UpdateWorld, exec_update, reply_restart, run_update, update_for_user,
}

module _ {D : Type 0} where
  read_all-exec_update :
      (update_row : BotConfig D → BotConfig D) (user_id v : String) (bot_id : ℕ)
      (cs : List (BotConfig D))
      → (user_id == v) ≡ false
      → read_all_records_cpyt v (exec_update update_row user_id bot_id cs)
        ≡ read_all_records_cpyt v cs
  unfolding exec_update read_all_records_cpyt
  read_all-exec_update update_row user_id v bot_id [] h = refl
  read_all-exec_update update_row user_id v bot_id (c ∷ cs) h = ground (
    arith,
    h,
    read_all-exec_update update_row user_id v bot_id cs h,
    ==_iff c.user_id user_id,
    ==_iff c.user_id v,
    ==_iff user_id v,
  )

module _ {F D : Type 0} ⦃dec : DecimalOps D⦄ where
  -- What a restart leaves, of the state that it starts with.
  abbrev Leaves : String → Fleet F D → Option (Option (Started F D)) → Type 0
  Leaves v fleet none = Unit {0}
  Leaves v fleet (some none) = Unit {0}
  Leaves v fleet (some (some r)) = Untouched v fleet r.fleet

  restart-Leaves :
      (w : World F D) (decrypts : List ℕ → Bool) (user_id v : String) (bot_id : ℕ) (uid : String)
      (fleet : Fleet F D)
      → (user_id == v) ≡ false
      → Leaves v fleet (restart_bot_after_settings_change w decrypts user_id bot_id uid fleet)
  unfolding restart_bot_after_settings_change
  restart-Leaves w decrypts user_id v bot_id uid fleet h = elim (Bool-cases (w.fails read_cpyt)) [
    | inl f ↦ rw (f, restart_bot_after_settings_change) tt
    | inr f ↦ (elim (Option-cases (read_record_cpyt user_id bot_id fleet.configs)) [
      | inl r ↦ rw (f, r, restart_bot_after_settings_change) tt
      | inr (c, r) ↦
          (elim (Bool-cases (not (decrypts c.api_key_raw && decrypts c.api_secret_raw))) [
            | inl d ↦ rw (f, r, d, restart_bot_after_settings_change) tt
            | inr d ↦ (elim (Option-cases (stop_bot w.fails user_id bot_id uid fleet)) [
              | inl s ↦ rw (f, r, d, s, restart_bot_after_settings_change) tt
              | inr (stopped, s) ↦
                  let req : StartBotParam = record {
                    user_id = user_id;
                    bot_id = bot_id;
                    exchange = c.exchange;
                    trader_uid = c.exchange;
                  } in
                  rw (f, r, d, s, restart_bot_after_settings_change)
                    (Untouched-trans v fleet stopped (start_bot false w req stopped).fleet
                      (stop_bot-Untouched w.fails user_id bot_id uid fleet stopped v h s)
                      (start_bot-Untouched false w req stopped v h))
            ])
          ])
    ])
  ]

  reply_restart-Untouched :
      (v : String) (fleet : Fleet F D) (r : Option (Option (Started F D)))
      → Leaves v fleet r
      → Untouched v fleet (reply_restart fleet r).fleet
  unfolding reply_restart
  reply_restart-Untouched v fleet none l = (refl, refl)
  reply_restart-Untouched v fleet (some none) l = (refl, refl)
  reply_restart-Untouched v fleet (some (some r)) l = ground (arith, l)

  run_update-Untouched :
      (w : World F D) (u : UpdateWorld F D) (user_id v : String) (bot_id : ℕ) (old : BotConfig D)
      (query : SettingsQuery F) (fleet : Fleet F D)
      → (user_id == v) ≡ false
      → Untouched v fleet (run_update w u user_id bot_id old query fleet).fleet
  unfolding run_update
  run_update-Untouched w u user_id v bot_id old query fleet h =
      let updated : Fleet F D = record fleet {
        configs = exec_update (u.update_row query) user_id bot_id fleet.configs;
      } in
      let written : Untouched v fleet updated =
        (refl, read_all-exec_update (u.update_row query) user_id v bot_id fleet.configs h) in
      elim (Bool-cases (is_filled query.update_failed)) [
        | inl b ↦ rw (b, run_update) (refl, refl)
        | inr b ↦ (elim (Bool-cases u.update_fails) [
          | inl e ↦ rw (b, e, run_update) (refl, refl)
          | inr e ↦
              (elim (Bool-cases
                (query.do_restart_bot && (not u.prevent_restart && is_active old.bot_status))) [
                  | inl again ↦
                      let r =
                        restart_bot_after_settings_change w u.decrypts user_id bot_id old.binance_id
                          updated in
                      rw (b, e, again, run_update)
                        (Untouched-trans v fleet updated (reply_restart updated r).fleet written (
                          reply_restart-Untouched v updated r (
                            restart-Leaves w u.decrypts user_id v bot_id old.binance_id updated h)))
                  | inr no_restart ↦ rw (b, e, no_restart, run_update) written
                ])
        ])
      ]

  pub update-Untouched :
      (w : World F D) (u : UpdateWorld F D) (user_id v : String) (bot_id : ℕ)
      (settings : List (String × Value F)) (fleet : Fleet F D)
      → (user_id == v) ≡ false
      → Untouched v fleet (update_for_user w u user_id bot_id settings fleet).fleet
  unfolding update_for_user
  update-Untouched w u user_id v bot_id settings fleet h = elim (Bool-cases (w.fails read_cpyt)) [
    | inl f ↦ rw (f, update_for_user) (refl, refl)
    | inr f ↦ (elim (Option-cases (read_record_cpyt user_id bot_id fleet.configs)) [
      | inl r ↦ rw (f, r, update_for_user) (refl, refl)
      | inr (c, r) ↦
          rw (f, r, update_for_user)
            (run_update-Untouched w u user_id v bot_id c
              (get_update_settings_sql u.calls user_id bot_id settings c) fleet h)
    ])
  ]
