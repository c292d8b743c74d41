-- ===== src/Fleet/Start.antt =====
-- botStartup.go: startBot with its deferred actions, and postBotLaunch.
use lightspeed_trading_clean.Base.{
  ℕ, String, inl, inr, Bool, true, false, Option, none, some, List, [], ◌∷◌, ◌++◌, ◌==◌, string_eq,
  number_eq, if◌then◌else◌, length, nat_beq, ◌&&◌, ◌||◌, not, ◌-◌,
}
use lightspeed_trading_clean.Base.Int.{pos}
use lightspeed_trading_clean.Base.Dict.{lookup, insert}
use lightspeed_trading_clean.Base.Texts.{ends_with}
use lightspeed_trading_clean.Numbers.{DecimalOps}
use lightspeed_trading_clean.Config.{BotConfig, active, inactive, starting}
use lightspeed_trading_clean.Trader.Requests.{Asked, got, refused, crashed}
use lightspeed_trading_clean.Bot.{Bot}
use lightspeed_trading_clean.Bot.Join.{handle_trader_bot_differences}
use lightspeed_trading_clean.Caches.Proxies.{next_group}
use lightspeed_trading_clean.Fleet.{
  Fleet, Monitor, Query, read_cpyt, read_users, read_plan, prox_per_copy, prox_per_sign, add_bot,
  add_monitor, get_monitor, read_record_cpyt, set_bot_activity, reduced, too_low, reduce_failed,
  check_and_reduce_cpyt_balance, give_back,
}
use lightspeed_trading_clean.Fleet.Clients.{made, bad_proxies, out_of_range, create_clients}
use lightspeed_trading_clean.Fleet.Create.{World, create_new_monitor, make_bot}
use lightspeed_trading_clean.Fleet.Balance.{
  is_active, fixed, fix_failed, fix_panicked, fix_copy_trading_balance,
}

-- `StartBotParam`, without what only the exchange's client takes.
pub record StartBotParam : Type 0 where
  pub user_id : String
  pub bot_id : ℕ
  pub exchange : String
  pub trader_uid : String

-- The errors of startBot. `balance_too_low`: what remains, the bot's balance, the plan's maximum if it
-- could be read.
pub data StartError (D : Type 0) : Type 0 where
  does_not_exist already_active unsupported_exchange leverage_below_one : StartError D
  empty_binance_id empty_notify_dest empty_api_key empty_api_secret : StartError D
  bot_failed balance_failed positions_failed bad_binance_id : StartError D
  balance_too_low : D → D → Option D → StartError D
  monitor_failed : String → StartError D

-- How startBot ends: it goes on with postBotLaunch (with the number of bots, and whether the monitor
-- existed), or returns an error (true if serverside), or panics.
pub data StartEnding (D : Type 0) : Type 0 where
  started : ℕ → Bool → StartEnding D
  start_failed : Bool → StartError D → StartEnding D
  start_panicked : StartEnding D

-- The state, the calls of `lmc.Finished` in order, and the ending.
pub record Started (F D : Type 0) : Type 0 where
  pub fleet : Fleet F D
  pub finished : List Bool
  pub ending : StartEnding D

module _ {D : Type 0} ⦃dec : DecimalOps D⦄ where
  -- The checks of the settings, in order.
  unfoldable pub config_refusal : BotConfig D → Option (StartError D)
  unfolding is_active
  config_refusal c =
      if is_active c.bot_status
      then some already_active
      else if not (c.exchange == "bybit")
      then some unsupported_exchange
      else if dec.ltb c.leverage (dec.from_int (pos 1))
      then some leverage_below_one
      else if c.binance_id == ""
      then some empty_binance_id
      else if c.notify_dest == ""
      then some empty_notify_dest
      else if nat_beq (length c.api_key_raw) 0
      then some empty_api_key
      else if nat_beq (length c.api_secret_raw) 0
      then some empty_api_secret
      else none

module _ {D : Type 0} where
  abbrev pub is_started : StartEnding D → Bool
  is_started (started num_bot exists) = true
  is_started _ = false

module _ {F D : Type 0} where
  abbrev pub fail_start : Fleet F D → List Bool → Bool → StartError D → Started F D
  fail_start fleet finished is_server err = record {
    fleet = fleet;
    finished = finished;
    ending = start_failed is_server err;
  }

  -- From handleTraderBotDifferences on, with a monitor that exists or is new.
  unfoldable pub join_monitor :
      World F D → StartBotParam → BotConfig D → Bot D → Bool → Monitor F D → Fleet F D → Started F D
  join_monitor w req config bot exists mon fleet =
      elim (handle_trader_bot_differences bot mon.positions config.mode_inverse none w.exc) [
        | none ↦ fail_start fleet (if exists then [] else false ∷ []) false positions_failed
        | some joined ↦
            let (grown, num_bot) = add_bot joined mon in
            record {
              fleet =
                  if exists
                  then record fleet {
                    running_mons = insert req.trader_uid grown fleet.running_mons;
                  }
                  else add_monitor grown fleet;
              finished = if exists then [] else true ∷ false ∷ [];
              ending = started num_bot exists;
            }
      ]

  -- A new monitor, or the error of its creation.
  unfoldable pub join_new :
      World F D
      → StartBotParam
      → BotConfig D
      → Bot D
      → Asked (Monitor F D)
      → Fleet F D
      → Started F D
  unfolding join_monitor
  join_new w req config bot (got mon) fleet = join_monitor w req config bot false mon fleet
  join_new w req config bot (refused err) fleet =
      if ends_with err "bad trader uid"
      then fail_start fleet (false ∷ []) false bad_binance_id
      else fail_start fleet (false ∷ []) true (monitor_failed err)
  join_new w req config bot crashed fleet = record {
    fleet = fleet;
    finished = false ∷ [];
    ending = start_panicked;
  }

  -- What Wait returns: where another goroutine has launched the monitor, `mon` is still nil, and its first
  -- use panics; otherwise a new monitor is made.
  unfoldable pub launch_or_wait :
      World F D → StartBotParam → BotConfig D → Bot D → Fleet F D → Bool → Started F D
  unfolding join_new
  launch_or_wait w req config bot fleet true = record {
    fleet = fleet;
    finished = [];
    ending = start_panicked;
  }
  launch_or_wait w req config bot fleet false =
      let (asked, available) = create_new_monitor w req.trader_uid fleet.available in
      join_new w req config bot asked (record fleet { available = available })

  -- From getMonitor on.
  unfoldable pub find_monitor :
      World F D → StartBotParam → BotConfig D → Bot D → Fleet F D → Started F D
  unfolding join_monitor launch_or_wait
  find_monitor w req config bot fleet = elim (get_monitor req.trader_uid fleet) [
    | some mon ↦ join_monitor w req config bot true mon fleet
    | none ↦ launch_or_wait w req config bot fleet w.in_handler
  ]

  abbrev pub set_inactive : World F D → StartBotParam → Started F D → Started F D
  set_inactive w req r = record r {
    fleet = set_bot_activity w.fails req.user_id req.bot_id inactive r.fleet;
  }

  -- The deferred `SetBotActivity(BotInactive)`.
  unfoldable pub reset_activity : World F D → StartBotParam → Started F D → Started F D
  reset_activity w req r = if is_started r.ending then r else set_inactive w req r

  -- The balance of the user's plan, for the message.
  unfoldable pub max_balance : (Query → Bool) → String → Fleet F D → Option D
  max_balance fails user_id fleet = elim (lookup user_id fleet.users) [
    | none ↦ none
    | some u ↦
        if fails read_users || fails read_plan then none else lookup u.plan fleet.max_ct_balance
  ]

module _ {F D : Type 0} ⦃dec : DecimalOps D⦄ where
  -- The deferred `AddBackToCpytBal`.
  unfoldable pub return_balance : World F D → StartBotParam → D → Started F D → Started F D
  return_balance w req bal r =
      if is_started r.ending
      then r
      else record r { fleet = give_back w.fails req.user_id bal r.fleet }

  -- From CheckAndReduceCpytBalance on. `retry` is `startBot(…, false)` where doCorrectBal is true: the
  -- call that made it has not started a bot itself, so its deferred action runs in any case.
  unfoldable pub take_balance :
      Option (Fleet F D → Started F D)
      → World F D
      → StartBotParam
      → BotConfig D
      → Bot D
      → Fleet F D
      → Started F D
  unfolding return_balance find_monitor max_balance reset_activity
  take_balance retry w req config bot fleet =
      let bal = bot.initial_balance in
      elim (check_and_reduce_cpyt_balance w.fails req.user_id bal fleet) [
        | reduce_failed ↦ set_inactive w req (fail_start fleet [] true balance_failed)
        | reduced less ↦
            reset_activity w req (return_balance w req bal (find_monitor w req config bot less))
        | too_low remaining ↦
            let err = balance_too_low remaining bal (max_balance w.fails req.user_id fleet) in
            (elim retry [
              | none ↦ set_inactive w req (fail_start fleet [] false err)
              | some again ↦ (elim (fix_copy_trading_balance w.fails req.user_id fleet) [
                | fixed corrected ↦ set_inactive w req (again corrected)
                | fix_failed ↦ set_inactive w req (fail_start fleet [] false err)
                | fix_panicked ↦
                    set_inactive w req
                      (record { fleet = fleet; finished = []; ending = start_panicked })
              ])
            ])
      ]

  -- startBot from the first SetBotActivity on.
  unfoldable pub start_checked :
      Option (Fleet F D → Started F D)
      → World F D
      → StartBotParam
      → BotConfig D
      → Fleet F D
      → Started F D
  unfolding take_balance
  start_checked retry w req config fleet =
      let busy = set_bot_activity w.fails req.user_id req.bot_id starting fleet in
      elim (make_bot w.exc w.balance_err w.now req.user_id req.bot_id req.exchange) [
        | inr is_server ↦ set_inactive w req (fail_start busy [] is_server bot_failed)
        | inl bot ↦ take_balance retry w req config bot busy
      ]

  -- The body of startBot. Where the settings cannot be read for another reason than a missing row, they are
  -- the zero value, whose exchange is not supported.
  unfoldable pub start_with :
      Option (Fleet F D → Started F D) → World F D → StartBotParam → Fleet F D → Started F D
  unfolding start_checked config_refusal
  start_with retry w req fleet =
      if w.fails read_cpyt
      then fail_start fleet [] false unsupported_exchange
      else (elim (read_record_cpyt req.user_id req.bot_id fleet.configs) [
        | none ↦ fail_start fleet [] false does_not_exist
        | some config ↦ (elim (config_refusal config) [
          | some err ↦ fail_start fleet [] false err
          | none ↦ start_checked retry w req config fleet
        ])
      ])

  -- `startBot`, with doCorrectBal.
  unfoldable pub start_bot : Bool → World F D → StartBotParam → Fleet F D → Started F D
  unfolding start_with
  start_bot false w req fleet = start_with none w req fleet
  start_bot true w req fleet = start_with (some (start_with none w req)) w req fleet

module _ {F D : Type 0} where
  -- The proxies that postBotLaunch adds to the monitor; `none` is a panic, which ends the process.
  unfoldable pub add_proxies : World F D → String → Fleet F D → Option (Fleet F D)
  add_proxies w uid fleet = elim (next_group fleet.available (prox_per_copy - prox_per_sign)) [
    | none ↦ some fleet
    | some (group, rest) ↦
        let less = record fleet { available = rest } in
        (elim (create_clients w.url_is_ok w.now group) [
          | out_of_range ↦ none
          | bad_proxies ↦ some less
          | made cs ↦ (elim (get_monitor uid less) [
            | none ↦ some less
            | some mon ↦ some (record less {
              running_mons =
                  insert uid (record mon { http_clients = mon.http_clients ++ cs })
                    less.running_mons;
            })
          ])
        ])
  ]

  -- `postBotLaunch`.
  unfoldable pub post_bot_launch :
      World F D → StartBotParam → ℕ → Bool → Fleet F D → Option (Fleet F D)
  unfolding add_proxies
  post_bot_launch w req num_bot monitor_exists fleet =
      let ready = set_bot_activity w.fails req.user_id req.bot_id active fleet in
      if nat_beq num_bot 1 && monitor_exists then add_proxies w req.trader_uid ready else some ready
