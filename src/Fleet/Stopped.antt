-- ===== src/Fleet/Stopped.antt =====
-- What stopBot does to a bot that runs.
use lightspeed_trading_clean.Base.{
  ℕ, ◌-◌, ◌≤◌, String, ◌≡◌, refl, ap, ◌⊎◌, inl, inr, Bool, true, false, none, some, ◌==◌, string_eq,
  if◌then◌else◌, arith, Bool-cases, Option-cases, ==_iff, ==_refl, nat_beq, length, is_some, leb,
  take, drop, map, ◌∙◌,
}
use lightspeed_trading_clean.Base.Dict.{lookup, insert, erase, lookup-insert, lookup-erase}
use lightspeed_trading_clean.Numbers.{DecimalOps}
use lightspeed_trading_clean.Config.{BotStatus, inactive, stopping}
use lightspeed_trading_clean.Bot.{Bot}
use lightspeed_trading_clean.Monitor.{ClientProxy, receive}
use lightspeed_trading_clean.Caches.Proxies.{return_group}
use lightspeed_trading_clean.Fleet.{
  Fleet, Monitor, Query, add_back, set_activity, set_bot_activity, write_status, get_monitor,
  get_bot, get_bot_hash, give_back, add_back_to_cpyt_bal, webhook_count, remove_bot_by_hash,
  remove_monitor, prox_per_copy, prox_per_sign,
}
use lightspeed_trading_clean.Fleet.Failed.{write_status-twice, give_back-SameRest}
use lightspeed_trading_clean.Fleet.Stop.{recover_proxies, stop_bot}

module _ {F D : Type 0} where
  -- A bot runs on the monitor of a trader.
  abbrev pub runs : String → String → Fleet F D → Bool
  runs uid hash fleet = elim (get_monitor uid fleet) [
    | none ↦ false
    | some mon ↦ is_some (get_bot hash mon)
  ]

  -- The monitor can give its proxies back: it has no webhooks, or clients enough.
  abbrev pub CanRecover : Monitor F D → Type 0
  CanRecover mon =
      (webhook_count mon ≡ 0) ⊎ (prox_per_copy - prox_per_sign ≤ length mon.http_clients)

  -- What recoverProxies leaves of the rows and of the bots.
  abbrev pub Recovered : String → Monitor F D → Fleet F D → Fleet F D → Type 0
  Recovered uid mon f g =
      (g.users ≡ f.users)
      × (g.configs ≡ f.configs)
      × ((get_monitor uid g ≡ none)
          ⊎ ((m : Monitor F D) × (get_monitor uid g ≡ some m) × (m.bots ≡ mon.bots)))

  recover_proxies-Recovered :
      (uid : String) (mon : Monitor F D) (fleet : Fleet F D)
      → mon.uid ≡ uid
      → CanRecover mon
      → (g : Fleet F D) × (recover_proxies uid mon fleet ≡ some g) × Recovered uid mon fleet g
  unfolding recover_proxies remove_monitor get_monitor receive webhook_count
  recover_proxies-Recovered uid mon fleet same can =
      elim (Bool-cases (nat_beq (webhook_count mon) 0)) [
        | inl e ↦
            let g : Fleet F D = record fleet {
              running_mons = erase mon.uid fleet.running_mons;
              available = return_group fleet.available mon.proxies;
            } in
            (
              g,
              rw (e, recover_proxies) refl,
              (
                refl,
                refl,
                inl (
                    rw (lookup-erase mon.uid uid fleet.running_mons)
                      (ground (arith, same, ==_iff mon.uid uid))),
              ),
            )
        | inr e ↦
            let enough : leb 4 (length mon.http_clients) ≡ true = ground (arith, e, can) in
            let smaller = record mon { http_clients = drop 4 mon.http_clients } in
            let g : Fleet F D = record fleet {
              running_mons = insert uid smaller fleet.running_mons;
              available =
                  return_group fleet.available
                    (map (λ (c : ClientProxy). c.proxy) (take 4 mon.http_clients));
            } in
            (
              g,
              rw (e, recover_proxies, enough, receive) refl,
              (
                refl,
                refl,
                inr (
                  smaller,
                  rw (lookup-insert uid uid smaller fleet.running_mons)
                      (ground (arith, ==_refl uid)),
                  refl,
                ),
              ),
            )
      ]

module _ {F D : Type 0} ⦃dec : DecimalOps D⦄ where
  -- The rows of the users after a balance was given back.
  abbrev pub PaidBack : String → D → Fleet F D → Fleet F D → String → Type 0
  PaidBack user_id bal f g j = lookup j g.users ≡ (
      if user_id == j
      then (elim (lookup user_id f.users) [
        | none ↦ none
        | some u ↦ some (record u { remaining_cpyt_bal = dec.add u.remaining_cpyt_bal bal })
      ])
      else lookup j f.users)

  give_back-PaidBack :
      (fails : Query → Bool) (user_id j : String) (bal : D) (fleet : Fleet F D)
      → fails add_back ≡ false
      → PaidBack user_id bal fleet (give_back fails user_id bal fleet) j
  unfolding add_back_to_cpyt_bal
  give_back-PaidBack fails user_id j bal fleet h =
      elim (Option-cases (lookup user_id fleet.users)) [
        | inl n ↦ ground (arith, h, n, ==_iff user_id j, ap (λ k. lookup k fleet.users))
        | inr (u, n) ↦ ground (
          arith,
          h,
          n,
          lookup-insert user_id j
              (record u { remaining_cpyt_bal = dec.add u.remaining_cpyt_bal bal }) fleet.users,
        )
      ]

  -- The parts of a state that a stop of a bot leaves.
  abbrev pub Stopped : String → ℕ → String → D → Fleet F D → Fleet F D → String → Type 0
  Stopped user_id bot_id uid bal f g j =
      PaidBack user_id bal f g j
      × (runs uid (get_bot_hash user_id bot_id) g ≡ false)
      × (g.configs ≡ write_status user_id bot_id inactive f.configs)

  -- The state in stopBot before the proxies are recovered.
  abbrev paid_fleet : (Query → Bool) → String → ℕ → String → Monitor F D → D → Fleet F D → Fleet F D
  paid_fleet fails user_id bot_id uid mon bal fleet = give_back fails user_id bal (
      set_bot_activity fails user_id bot_id inactive
        (record (set_bot_activity fails user_id bot_id stopping fleet) {
          running_mons =
              insert uid (remove_bot_by_hash (get_bot_hash user_id bot_id) mon).0
                (set_bot_activity fails user_id bot_id stopping fleet).running_mons;
        }))

  pub activity-SameRest :
      (fails : Query → Bool) (user_id : String) (bot_id : ℕ) (status : BotStatus)
      (fleet : Fleet F D)
      → ((set_bot_activity fails user_id bot_id status fleet).running_mons ≡ fleet.running_mons)
        × ((set_bot_activity fails user_id bot_id status fleet).users ≡ fleet.users)
  unfolding set_bot_activity
  activity-SameRest fails user_id bot_id status fleet = ground arith

  stopping-inactive :
      (fails : Query → Bool) (user_id : String) (bot_id : ℕ) (fleet : Fleet F D)
      → write_status user_id bot_id inactive
          (set_bot_activity fails user_id bot_id stopping fleet).configs
        ≡ write_status user_id bot_id inactive fleet.configs
  unfolding set_bot_activity
  stopping-inactive fails user_id bot_id fleet =
      ground (arith, write_status-twice user_id bot_id inactive stopping fleet.configs)

  paid_fleet-rest :
      (fails : Query → Bool) (user_id : String) (bot_id : ℕ) (uid : String) (mon : Monitor F D)
      (bal : D) (fleet : Fleet F D) (j : String)
      → fails add_back ≡ false
      → fails (set_activity inactive) ≡ false
      → PaidBack user_id bal fleet (paid_fleet fails user_id bot_id uid mon bal fleet) j
        × ((paid_fleet fails user_id bot_id uid mon bal fleet).running_mons
            ≡ insert uid
                (remove_bot_by_hash (get_bot_hash user_id bot_id) mon).0
                fleet.running_mons)
        × ((paid_fleet fails user_id bot_id uid mon bal fleet).configs
            ≡ write_status user_id bot_id inactive fleet.configs)
  unfolding set_bot_activity
  paid_fleet-rest fails user_id bot_id uid mon bal fleet j back inact =
      let busy = set_bot_activity fails user_id bot_id stopping fleet in
      let smaller = (remove_bot_by_hash (get_bot_hash user_id bot_id) mon).0 in
      let removed : Fleet F D = record busy {
        running_mons = insert uid smaller busy.running_mons;
      } in
      let idle = set_bot_activity fails user_id bot_id inactive removed in
      let given = give_back-SameRest fails user_id bal idle in
      let users : idle.users ≡ fleet.users =
        (activity-SameRest fails user_id bot_id inactive removed).1
        ∙ (activity-SameRest fails user_id bot_id stopping fleet).1 in
      (
        rw users at (give_back-PaidBack fails user_id j bal idle back),
        given.0
            ∙ (activity-SameRest fails user_id bot_id inactive removed).0
            ∙ ap (insert uid smaller) (activity-SameRest fails user_id bot_id stopping fleet).0,
        given.1 ∙ rw (inact, set_bot_activity) (stopping-inactive fails user_id bot_id fleet),
      )

  gone :
      (user_id : String) (bot_id : ℕ) (uid : String) (mon m : Monitor F D) (g : Fleet F D)
      → get_monitor uid g ≡ some m
      → m.bots ≡ erase (get_bot_hash user_id bot_id) mon.bots
      → runs uid (get_bot_hash user_id bot_id) g ≡ false
  unfolding get_bot
  gone user_id bot_id uid mon m g e same =
      let hash = get_bot_hash user_id bot_id in
      let none_left : lookup hash m.bots ≡ none =
        rw (same, lookup-erase hash hash mon.bots) (ground (arith, ==_refl hash)) in
      ground (arith, e, none_left)

  -- Stopping a bot that runs on its trader's monitor, which can give its proxies back, succeeds: the bot does not
  -- run any more, its row is inactive, and its balance is added to what its user has left and to
  -- nobody else's; this holds where the writes of the status inactive and of the balance succeed.
  pub stop_bot-Stopped :
      (fails : Query → Bool) (user_id : String) (bot_id : ℕ) (uid : String) (mon : Monitor F D)
      (bot : Bot D) (fleet : Fleet F D) (j : String)
      → fails add_back ≡ false
      → fails (set_activity inactive) ≡ false
      → get_monitor uid fleet ≡ some mon
      → mon.uid ≡ uid
      → get_bot (get_bot_hash user_id bot_id) mon ≡ some bot
      → CanRecover mon
      → (after : Fleet F D) × (stop_bot fails user_id bot_id uid fleet ≡ some after)
        × Stopped user_id bot_id uid bot.initial_balance fleet after j
  unfolding stop_bot remove_bot_by_hash get_monitor webhook_count
  stop_bot-Stopped fails user_id bot_id uid mon bot fleet j back inact at same has can =
      let hash = get_bot_hash user_id bot_id in
      let busy = set_bot_activity fails user_id bot_id stopping fleet in
      let kept = (activity-SameRest fails user_id bot_id stopping fleet).0 in
      let at' : get_monitor uid busy ≡ some mon = rw kept at in
      let smaller = (remove_bot_by_hash hash mon).0 in
      let paid = paid_fleet fails user_id bot_id uid mon bot.initial_balance fleet in
      let rest =
        paid_fleet-rest fails user_id bot_id uid mon bot.initial_balance fleet j back inact in
      let (g, recovered, (users, configs, mons)) =
        recover_proxies-Recovered uid smaller paid same can in
      elim (Bool-cases (nat_beq (length (erase hash mon.bots)) 0)) [
        | inl e ↦ (
          g,
          rw (at', has, e, stop_bot) recovered,
          (
            rw users rest.0,
            elim mons [
              | inl n ↦ ground (arith, n)
              | inr (m, found, bots) ↦ gone user_id bot_id uid mon m g found bots
            ],
            configs ∙ rest.2,
          ),
        )
        | inr e ↦ (
          paid,
          rw (at', has, e, stop_bot) refl,
          (
            rest.0,
            gone user_id bot_id uid mon smaller paid
                (rw (rest.1, lookup-insert uid uid smaller fleet.running_mons)
                  (ground (arith, ==_refl uid)))
                refl,
            rest.2,
          ),
        )
      ]
