-- ===== src/Fleet/Started.antt =====
-- What startBot does where it starts a bot, and the stop of that bot.
use lightspeed_trading_clean.Base.{
  ℕ, String, ◌≡◌, refl, ◌⊎◌, inl, inr, Bool, false, none, some, List, [], ◌∷◌, string_eq, arith,
  Bool-cases, Option-cases, ==_iff, ==_refl, length, ltb,
}
use lightspeed_trading_clean.Base.Dict.{Dict, lookup, insert, lookup-insert}
use lightspeed_trading_clean.Config.{BotConfig}
use lightspeed_trading_clean.Trader.{TraderPosition}
use lightspeed_trading_clean.Trader.Requests.{
  Asked, got, refused, crashed, get_name, get_init_positions,
}
use lightspeed_trading_clean.Monitor.{ClientProxy}
use lightspeed_trading_clean.Bot.{Bot, BotPosition}
use lightspeed_trading_clean.Bot.Ignore.{ignore}
use lightspeed_trading_clean.Bot.Join.{
  join_positions, ignore_others, our_key, handle_trader_bot_differences,
}
use lightspeed_trading_clean.Caches.Proxies.{next_group}
use lightspeed_trading_clean.Fleet.{
  Fleet, Monitor, get_monitor, get_bot, get_bot_hash, add_bot, add_monitor, webhook_count,
  prox_per_copy,
}
use lightspeed_trading_clean.Fleet.Clients.{
  Clients, made, bad_proxies, out_of_range, create_clients,
}
use lightspeed_trading_clean.Fleet.Create.{World, new_monitor, settle_proxies, create_new_monitor}
use lightspeed_trading_clean.Fleet.Start.{StartBotParam, started, join_monitor}
use lightspeed_trading_clean.Fleet.Stopped.{CanRecover}

module _ {D : Type 0} where
  -- Two values of a bot that differ at most in its positions and in what it ignores.
  abbrev pub SameBot : Bot D → Bot D → Type 0
  SameBot a b =
      (b.user_id ≡ a.user_id) × (b.bot_id ≡ a.bot_id) × (b.initial_balance ≡ a.initial_balance)

  ignore-SameBot : (bot : Bot D) (symbol : String) → SameBot bot (ignore bot symbol)
  unfolding ignore
  ignore-SameBot bot symbol = ground arith

module _ {F D : Type 0} where
  join_positions-SameBot :
      (inverse : Bool) (users : Dict String (BotPosition D)) (ts : List (TraderPosition F))
      (bot : Bot D)
      → SameBot bot (join_positions inverse users ts bot)
  unfolding join_positions
  join_positions-SameBot inverse users [] bot = (refl, refl, refl)
  join_positions-SameBot inverse users (t ∷ ts) bot =
      elim (Option-cases (lookup (our_key inverse t) users)) [
        | inl e ↦
            rw (e, join_positions)
              (ground (
                arith,
                join_positions-SameBot inverse users ts (ignore bot t.symbol),
                ignore-SameBot bot t.symbol,
              ))
        | inr (p, e) ↦
            rw (e, join_positions)
              (join_positions-SameBot inverse users ts
                (record bot { positions = insert (our_key inverse t) p bot.positions }))
      ]

  ignore_others-SameBot :
      (ts : List (TraderPosition F)) (users : Dict String (BotPosition D)) (bot : Bot D)
      → SameBot bot (ignore_others ts users bot)
  unfolding ignore_others
  ignore_others-SameBot ts [] bot = (refl, refl, refl)
  ignore_others-SameBot ts ((k, p) ∷ users) bot = ground (
    arith,
    ignore_others-SameBot ts users bot,
    ignore_others-SameBot ts users (ignore bot p.symbol),
    ignore-SameBot bot p.symbol,
  )

  differences-SameBot :
      (w : World F D) (bot joined : Bot D) (ts : List (TraderPosition F)) (inverse : Bool)
      → handle_trader_bot_differences bot ts inverse none w.exc ≡ some joined
      → SameBot bot joined
  unfolding handle_trader_bot_differences
  differences-SameBot w bot joined ts inverse e = elim (Option-cases w.exc.get_my_positions) [
    | inl n ↦ absurd (ground (arith, n, e))
    | inr (d, n) ↦
        let same : ignore_others ts d (join_positions inverse d ts bot) ≡ joined =
          ground (arith, n, e) in
        ground (
          arith,
          same,
          ignore_others-SameBot ts d (join_positions inverse d ts bot),
          join_positions-SameBot inverse d ts bot,
        )
  ]

pub Asked-cases :
    {A : Type 0} (a : Asked A)
    → ((x : A) × (a ≡ got x)) ⊎ ((err : String) × (a ≡ refused err)) ⊎ (a ≡ crashed)
Asked-cases (got x) = inl (x, refl)
Asked-cases (refused err) = inr (inl (err, refl))
Asked-cases crashed = inr (inr refl)

Clients-cases :
    (c : Clients)
    → ((cs : List ClientProxy) × (c ≡ made cs)) ⊎ (c ≡ bad_proxies) ⊎ (c ≡ out_of_range)
Clients-cases (made cs) = inl (cs, refl)
Clients-cases bad_proxies = inr (inl refl)
Clients-cases out_of_range = inr (inr refl)

pub few_group :
    (available : List String)
    → ltb (length available) prox_per_copy ≡ false
    → next_group available prox_per_copy ≡ none
    → ⊥
unfolding next_group
few_group available enough n = absurd (ground (arith, enough, n))

module _ {F D : Type 0} where
  -- A monitor as newMonitor makes it of some proxies.
  abbrev pub Fresh : World F D → String → List String → Monitor F D → Type 0
  Fresh w uid ps mon =
      (mon.uid ≡ uid)
      × (mon.proxies ≡ ps)
      × (create_clients w.url_is_ok w.now ps ≡ made mon.http_clients)
      × (mon.bots ≡ [])
      × (mon.webhooks ≡ [])

  pub new_monitor-Fresh :
      (w : World F D) (uid : String) (ps : List String) (mon : Monitor F D)
      → new_monitor w uid ps ≡ got mon
      → Fresh w uid ps mon
  unfolding new_monitor
  new_monitor-Fresh w uid ps mon e = elim (Clients-cases (create_clients w.url_is_ok w.now ps)) [
    | inr (inl c) ↦ absurd (ground (arith, c, e))
    | inr (inr c) ↦ absurd (ground (arith, c, e))
    | inl (cs, c) ↦ (elim (Asked-cases (get_name w.names cs)) [
      | inr (inl (err, n)) ↦ absurd (ground (arith, c, n, e))
      | inr (inr n) ↦ absurd (ground (arith, c, n, e))
      | inl (name, n) ↦ (elim (Asked-cases (get_init_positions name w.readings cs)) [
        | inr (inl (err, p)) ↦ absurd (ground (arith, c, n, p, e))
        | inr (inr p) ↦ absurd (ground (arith, c, n, p, e))
        | inl (ps', p) ↦ ground (arith, c, n, p, e)
      ])
    ])
  ]

  -- A monitor that createNewMonitor made has the next group of proxies.
  pub create_new_monitor-Fresh :
      (w : World F D) (uid : String) (available : List String) (mon : Monitor F D)
      → (create_new_monitor w uid available).0 ≡ got mon
      → (group : List String) × (rest : List String) × (next_group available prox_per_copy
          ≡ some (group, rest))
        × Fresh w uid group mon
        × ((create_new_monitor w uid available).1 ≡ rest)
  unfolding create_new_monitor settle_proxies
  create_new_monitor-Fresh w uid available mon e =
      elim (Bool-cases (ltb (length available) prox_per_copy)) [
        | inl few ↦ absurd (ground (arith, few, e))
        | inr enough ↦ (elim (Option-cases (next_group available prox_per_copy)) [
          | inl n ↦ absurd (few_group available enough n)
          | inr ((group, rest), n) ↦ (elim (Asked-cases (new_monitor w uid group)) [
            | inl (m, a) ↦
                let same : m ≡ mon = ground (arith, enough, n, a, e) in
                (
                  group,
                  rest,
                  n,
                  new_monitor-Fresh w uid group mon (rw same at a),
                  rw (enough, n, create_new_monitor, a, settle_proxies) refl,
                )
            | inr (inl (err, a)) ↦ absurd (ground (arith, enough, n, a, e))
            | inr (inr a) ↦ absurd (ground (arith, enough, n, a, e))
          ])
        ])
      ]

  -- The running monitor of a trader, if there is one, has the trader's uid and can give its proxies back.
  abbrev pub Sound : String → Fleet F D → Type 0
  Sound uid fleet = elim (get_monitor uid fleet) [
    | none ↦ Unit {0}
    | some mon ↦ (mon.uid ≡ uid) × CanRecover mon
  ]

  -- A bot runs on a sound monitor, which has some number of bots.
  abbrev pub Runs : String → String → D → ℕ → Fleet F D → Type 0
  Runs uid hash bal n g =
      (mon : Monitor F D) × (bot : Bot D) × (get_monitor uid g ≡ some mon)
      × (mon.uid ≡ uid)
      × CanRecover mon
      × (get_bot hash mon ≡ some bot)
      × (bot.initial_balance ≡ bal)
      × (length mon.bots ≡ n)

  pub join_monitor-started :
      (w : World F D) (req : StartBotParam) (config : BotConfig D) (bot : Bot D) (exists : Bool)
      (mon : Monitor F D) (fleet : Fleet F D) (n : ℕ) (e : Bool)
      → mon.uid ≡ req.trader_uid
      → CanRecover mon
      → (join_monitor w req config bot exists mon fleet).ending ≡ started n e
      → Runs req.trader_uid
          (get_bot_hash bot.user_id bot.bot_id)
          bot.initial_balance
          n
          (join_monitor w req config bot exists mon fleet).fleet
        × ((join_monitor w req config bot exists mon fleet).fleet.users ≡ fleet.users)
  unfolding join_monitor add_bot add_monitor get_monitor get_bot webhook_count
  join_monitor-started w req config bot exists mon fleet n e same can h =
      elim (Option-cases
        (handle_trader_bot_differences bot mon.positions config.mode_inverse none w.exc)) [
          | inl d ↦ absurd (ground (arith, d, h))
          | inr (joined, d) ↦
              let (user, id, bal) =
                differences-SameBot w bot joined mon.positions config.mode_inverse d in
              let hash = get_bot_hash joined.user_id joined.bot_id in
              let key = get_bot_hash bot.user_id bot.bot_id in
              let entry = record joined { trader = mon.name } in
              let grown : Monitor F D = record mon { bots = insert hash entry mon.bots } in
              let one : hash ≡ key = rw (user, id) refl in
              let number : length (insert hash entry mon.bots) ≡ n = ground (arith, d, h) in
              let found : lookup key (insert hash entry mon.bots) ≡ some entry =
                rw (lookup-insert hash key entry mon.bots) (ground (arith, one, ==_iff hash key)) in
              rw (d, join_monitor)
                (
                  (
                    grown,
                    entry,
                    ground (
                      arith,
                      same,
                      lookup-insert req.trader_uid req.trader_uid grown fleet.running_mons,
                      lookup-insert mon.uid req.trader_uid grown fleet.running_mons,
                      ==_iff mon.uid req.trader_uid,
                      ==_refl req.trader_uid,
                    ),
                    same,
                    can,
                    found,
                    bal,
                    number,
                  ),
                  ground arith,
                )
        ]
