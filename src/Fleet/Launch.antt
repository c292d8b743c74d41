-- ===== src/Fleet/Launch.antt =====
-- launch.go: launchMultipleBots and launchActiveMonitors. Where the code calls log.Fatalf, or a goroutine panics,
-- the process ends: `none`. Goroutines' results are taken in the order of a list.
use lightspeed_trading_clean.Base.{
  ℕ, ◌-◌, String, inl, inr, Bool, Option, none, some, List, [], ◌∷◌, ◌++◌, string_eq, if◌then◌else◌,
  length, nat_beq, not, ◌&&◌,
}
use lightspeed_trading_clean.Base.Dict.{Dict, lookup, insert}
use lightspeed_trading_clean.Numbers.{DecimalOps}
use lightspeed_trading_clean.Config.{BotConfig}
use lightspeed_trading_clean.Launch.{SignalConfig}
use lightspeed_trading_clean.Bot.{Bot, ExchangeClient}
use lightspeed_trading_clean.Bot.Join.{handle_trader_bot_differences}
use lightspeed_trading_clean.Trader.Requests.{got, refused, crashed}
use lightspeed_trading_clean.Caches.Proxies.{next_group, return_group}
use lightspeed_trading_clean.Fleet.{
  Fleet, Monitor, prox_per_copy, prox_per_sign, get_bot_hash, add_monitor, webhook_count,
}
use lightspeed_trading_clean.Fleet.Clients.{made, bad_proxies, out_of_range, create_clients}
use lightspeed_trading_clean.Fleet.Create.{World, new_monitor, make_bot}

-- The exchange of a bot's settings, with the text of its balance error; and whether a key can be decrypted.
pub record Keys (D : Type 0) : Type 0 where
  pub exc : BotConfig D → ExchangeClient D
  pub balance_err : BotConfig D → String
  pub decrypts : List ℕ → Bool

-- The loop over a trader's signals; it stores the binance ID, as in the code.
unfoldable pub attach_urls : List SignalConfig → Dict String String → Dict String String
attach_urls [] urls = urls
attach_urls (s ∷ ss) urls = attach_urls ss (insert s.user_id s.binance_id urls)

module _ {F D : Type 0} ⦃dec : DecimalOps D⦄ where
  -- What becomes of one bot: it is there, or its keys are invalid; `none` ends the process, also where
  -- its positions cannot be read, since `bot.Trader` of the nil bot panics.
  unfoldable pub launch_bot : Keys D → ℕ → Monitor F D → BotConfig D → Option (Option (Bot D))
  launch_bot keys now mon c =
      if not (keys.decrypts c.api_key_raw && keys.decrypts c.api_secret_raw)
      then none
      else (elim (make_bot (keys.exc c) (keys.balance_err c) now c.user_id c.bot_id c.exchange) [
        | inr is_server ↦ if is_server then none else some none
        | inl bot ↦
            (elim (handle_trader_bot_differences bot mon.positions c.mode_inverse none
              (keys.exc c)) [
                | none ↦ none
                | some joined ↦ some (some (record joined { trader = mon.name }))
              ])
      ])

  -- The loop that collects the results, from some bots on.
  unfoldable pub collect_bots :
      Keys D
      → ℕ
      → Monitor F D
      → List (BotConfig D)
      → Dict String (Bot D)
      → Option (Dict String (Bot D))
  unfolding launch_bot
  collect_bots keys now mon [] bots = some bots
  collect_bots keys now mon (c ∷ cs) bots = elim (launch_bot keys now mon c) [
    | none ↦ none
    | some none ↦ collect_bots keys now mon cs bots
    | some (some bot) ↦
        collect_bots keys now mon cs (insert (get_bot_hash c.user_id c.bot_id) bot bots)
  ]

  -- `launchMultipleBots`.
  unfoldable pub launch_multiple_bots :
      Keys D → ℕ → List (BotConfig D) → Monitor F D → Option (Monitor F D)
  unfolding collect_bots
  launch_multiple_bots keys now configs mon = elim (collect_bots keys now mon configs []) [
    | none ↦ none
    | some bots ↦ some (record mon { bots = bots })
  ]

  -- The goroutine of launchActiveMonitors for one trader: its monitor and the proxies left.
  unfoldable pub launch_monitor :
      Keys D
      → World F D
      → Dict String (List (BotConfig D))
      → Dict String (List SignalConfig)
      → String
      → List String
      → Option (Monitor F D × List String)
  unfolding launch_multiple_bots
  launch_monitor keys w bots signals uid available = elim (next_group available prox_per_sign) [
    | none ↦ none
    | some (group, rest) ↦ (elim (new_monitor w uid group) [
      | refused err ↦ none
      | crashed ↦ none
      | got mon ↦
          let hooked : Monitor F D = elim (lookup uid signals) [
            | none ↦ mon
            | some ss ↦ record mon { webhooks = attach_urls ss [] }
          ] in
          (elim (lookup uid bots) [
            | none ↦ some (hooked, rest)
            | some cs ↦ (elim (launch_multiple_bots keys w.now cs hooked) [
              | none ↦ none
              | some full ↦ some (full, rest)
            ])
          ])
    ])
  ]

module _ {F D : Type 0} where
  -- More clients for a monitor with bots.
  unfoldable pub load_proxies :
      World F D → Monitor F D → List String → Option (Monitor F D × List String)
  load_proxies w mon available =
      if nat_beq (length mon.bots) 0
      then some (mon, available)
      else (elim (next_group available (prox_per_copy - prox_per_sign)) [
        | none ↦ some (mon, available)
        | some (group, rest) ↦ (elim (create_clients w.url_is_ok w.now group) [
          | out_of_range ↦ none
          | bad_proxies ↦ some (mon, rest)
          | made cs ↦ some (record mon { http_clients = mon.http_clients ++ cs }, rest)
        ])
      ])

  -- The body of the loop that collects the monitors.
  unfoldable pub collect_monitor : World F D → Monitor F D → Fleet F D → Option (Fleet F D)
  unfolding load_proxies
  collect_monitor w mon fleet = elim (load_proxies w mon fleet.available) [
    | none ↦ none
    | some (full, rest) ↦
        let less = record fleet { available = rest } in
        if nat_beq (length full.bots) 0 && nat_beq (webhook_count full) 0
        then some (record less { available = return_group rest full.proxies })
        else some (add_monitor full less)
  ]

module _ {F D : Type 0} ⦃dec : DecimalOps D⦄ where
  -- The monitors of some traders, made one after the other.
  unfoldable pub launch_all :
      Keys D
      → (String → World F D)
      → Dict String (List (BotConfig D))
      → Dict String (List SignalConfig)
      → List String
      → List String
      → Option (List (Monitor F D) × List String)
  unfolding launch_monitor
  launch_all keys w bots signals [] available = some ([], available)
  launch_all keys w bots signals (uid ∷ uids) available =
      elim (launch_monitor keys (w uid) bots signals uid available) [
        | none ↦ none
        | some (mon, rest) ↦ (elim (launch_all keys w bots signals uids rest) [
          | none ↦ none
          | some (mons, left) ↦ some (mon ∷ mons, left)
        ])
      ]

  unfoldable pub collect_all :
      (String → World F D) → List (Monitor F D) → Fleet F D → Option (Fleet F D)
  unfolding collect_monitor
  collect_all w [] fleet = some fleet
  collect_all w (mon ∷ mons) fleet = elim (collect_monitor (w mon.uid) mon fleet) [
    | none ↦ none
    | some f ↦ collect_all w mons f
  ]

  -- `launchActiveMonitors`, over the traders' uids.
  unfoldable pub launch_active_monitors :
      Keys D
      → (String → World F D)
      → Dict String (List (BotConfig D))
      → Dict String (List SignalConfig)
      → List String
      → Fleet F D
      → Option (Fleet F D)
  unfolding launch_all collect_all
  launch_active_monitors keys w bots signals uids fleet =
      elim (launch_all keys w bots signals uids fleet.available) [
        | none ↦ none
        | some (mons, rest) ↦ collect_all w mons (record fleet { available = rest })
      ]
