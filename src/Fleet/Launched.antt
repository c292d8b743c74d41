-- ===== src/Fleet/Launched.antt =====
-- The bots and the proxies of the monitors that are launched at the start.
use lightspeed_trading_clean.Base.{
  ℕ, ◌+◌, ◌-◌, String, ◌≡◌, refl, ap, ◌⊎◌, inl, inr, true, false, none, some, List, [], ◌∷◌, ◌++◌,
  string_eq, arith, Option-cases, length, nat_beq, All, is_some, ==_refl, ◌∙◌,
}
use lightspeed_trading_clean.Base.Dict.{Dict, lookup, insert, erase, lookup-insert}
use lightspeed_trading_clean.Numbers.{DecimalOps}
use lightspeed_trading_clean.Config.{BotConfig}
use lightspeed_trading_clean.Monitor.{ClientProxy}
use lightspeed_trading_clean.Bot.{Bot}
use lightspeed_trading_clean.Caches.Proxies.{next_group, return_group, count, count-append}
use lightspeed_trading_clean.Fleet.{
  Fleet, Monitor, prox_per_copy, prox_per_sign, get_bot_hash, add_monitor, get_monitor,
  webhook_count, remove_monitor,
}
use lightspeed_trading_clean.Fleet.Clients.{made, create_clients}
use lightspeed_trading_clean.Fleet.Create.{World}
use lightspeed_trading_clean.Fleet.Stop.{recover_proxies}
use lightspeed_trading_clean.Fleet.Proxies.{next_group-count}
use lightspeed_trading_clean.Fleet.Launch.{
  Keys, launch_bot, collect_bots, launch_multiple_bots, load_proxies, collect_monitor,
}

module _ {F D : Type 0} ⦃dec : DecimalOps D⦄ where
  collect_bots-keeps :
      (keys : Keys D) (now : ℕ) (mon : Monitor F D) (cs : List (BotConfig D))
      (bots all : Dict String (Bot D)) (hash : String)
      → collect_bots keys now mon cs bots ≡ some all
      → is_some (lookup hash bots) ≡ true
      → is_some (lookup hash all) ≡ true
  unfolding collect_bots
  collect_bots-keeps keys now mon [] bots all hash e h = ground (arith, e, h)
  collect_bots-keeps keys now mon (c ∷ cs) bots all hash e h =
      elim (Option-cases (launch_bot keys now mon c)) [
        | inl n ↦ absurd (ground (arith, n, e))
        | inr (o, n) ↦ (elim (Option-cases o) [
          | inl m ↦ collect_bots-keeps keys now mon cs bots all hash (ground (arith, n, m, e)) h
          | inr (bot, m) ↦
              let key = get_bot_hash c.user_id c.bot_id in
              collect_bots-keeps keys now mon cs (insert key bot bots) all hash
                (ground (arith, n, m, e)) (ground (arith, h, lookup-insert key hash bot bots))
        ])
      ]

  -- What becomes of a bot: its keys are invalid, or it is among some bots.
  abbrev pub Launched : Keys D → ℕ → Monitor F D → Dict String (Bot D) → BotConfig D → Type 0
  Launched keys now mon bots c =
      (launch_bot keys now mon c ≡ some none)
      ⊎ (is_some (lookup (get_bot_hash c.user_id c.bot_id) bots) ≡ true)

  collect_bots-Launched :
      (keys : Keys D) (now : ℕ) (mon : Monitor F D) (cs : List (BotConfig D))
      (bots all : Dict String (Bot D))
      → collect_bots keys now mon cs bots ≡ some all
      → All (Launched keys now mon all) cs
  unfolding collect_bots
  collect_bots-Launched keys now mon [] bots all e = tt
  collect_bots-Launched keys now mon (c ∷ cs) bots all e =
      elim (Option-cases (launch_bot keys now mon c)) [
        | inl n ↦ absurd (ground (arith, n, e))
        | inr (o, n) ↦ (elim (Option-cases o) [
          | inl m ↦ (
            inl (n ∙ ap some m),
            collect_bots-Launched keys now mon cs bots all (ground (arith, n, m, e)),
          )
          | inr (bot, m) ↦
              let key = get_bot_hash c.user_id c.bot_id in
              let e' : collect_bots keys now mon cs (insert key bot bots) ≡ some all =
                ground (arith, n, m, e) in
              (
                inr (
                    collect_bots-keeps keys now mon cs (insert key bot bots) all key e'
                      (ground (arith, lookup-insert key key bot bots, ==_refl key))),
                collect_bots-Launched keys now mon cs (insert key bot bots) all e',
              )
        ])
      ]

  -- Where launchMultipleBots does not end the process, every bot of the settings is on the monitor, except those whose
  -- keys the exchange rejects; and the monitor is otherwise as it was.
  pub launch_multiple_bots-Launched :
      (keys : Keys D) (now : ℕ) (cs : List (BotConfig D)) (mon full : Monitor F D)
      → launch_multiple_bots keys now cs mon ≡ some full
      → All (Launched keys now mon full.bots) cs × (full ≡ record mon { bots = full.bots })
  unfolding launch_multiple_bots
  launch_multiple_bots-Launched keys now cs mon full e =
      elim (Option-cases (collect_bots keys now mon cs [])) [
        | inl n ↦ absurd (ground (arith, n, e))
        | inr (bots, n) ↦
            let same : record mon { bots = bots } ≡ full = ground (arith, n, e) in
            rw (← same) (collect_bots-Launched keys now mon cs [] bots n, refl)
      ]

module _ {F D : Type 0} where
  -- For a monitor without webhooks and with bots, collectMonitor takes a group of free proxies for its clients, but leaves
  -- the field `proxies` as it is. recoverProxies of the monitor that is launched, without its bots, gives back
  -- what the field holds: for each proxy, those free after it and those of the group are those free before the launch
  -- and those of the field. This holds where the proxies are enough and createClients accepts them.
  pub collect_monitor-loss :
      (w : World F D) (mon : Monitor F D) (fleet : Fleet F D) (group rest : List String)
      (cs : List ClientProxy) (p : String)
      → nat_beq (length mon.bots) 0 ≡ false
      → nat_beq (webhook_count mon) 0 ≡ true
      → next_group fleet.available (prox_per_copy - prox_per_sign) ≡ some (group, rest)
      → create_clients w.url_is_ok w.now group ≡ made cs
      → (launched after : Fleet F D) × (running : Monitor F D) × (collect_monitor w mon fleet
          ≡ some launched)
        × (get_monitor mon.uid launched ≡ some running)
        × (recover_proxies mon.uid (record running { bots = [] }) launched ≡ some after)
        × (count p after.available + count p group ≡ count p fleet.available + count p mon.proxies)
  unfolding collect_monitor load_proxies recover_proxies webhook_count add_monitor get_monitor
      return_group remove_monitor
  collect_monitor-loss w mon fleet group rest cs p bots hooks next clients =
      let running : Monitor F D = record mon { http_clients = mon.http_clients ++ cs } in
      let launched : Fleet F D = record fleet {
        available = rest;
        running_mons = insert mon.uid running fleet.running_mons;
      } in
      let after : Fleet F D = record launched {
        running_mons = erase mon.uid launched.running_mons;
        available = return_group rest mon.proxies;
      } in
      (
        launched,
        after,
        running,
        rw (bots, next, clients, load_proxies, bots, collect_monitor) refl,
        rw (lookup-insert mon.uid mon.uid running fleet.running_mons)
            (ground (arith, ==_refl mon.uid)),
        rw (hooks, recover_proxies) refl,
        omega (
          arith,
          count-append p rest mon.proxies,
          next_group-count p fleet.available rest group (prox_per_copy - prox_per_sign) next,
        ),
      )
