-- ===== src/Fleet.antt =====
-- monitor.go, handler.go and the queries of db/access.go that start-up uses: the monitors that run,
-- their bots and proxies, and the rows of the tables copytrading, users and plans. The handler holds
-- pointers: a change of a monitor is a change of the entry under the monitor's uid.
pub mod Clients
pub mod Create
pub mod Balance
pub mod Start
pub mod Stop
pub mod Failed
pub mod Stopped
pub mod Started
pub mod Running
pub mod Cycle
pub mod Proxies
pub mod Launch
pub mod Launched
pub mod Others
pub mod Apart
mod Tests
use Prim.Native.String.{◌++◌ as str_append}
use lightspeed_trading_clean.Base.{
  ℕ, String, Bool, true, false, Option, none, some, List, [], ◌∷◌, ◌==◌, string_eq, number_eq,
  if◌then◌else◌, ◌&&◌, length, not,
}
use lightspeed_trading_clean.Base.Int.{ℤ}
use lightspeed_trading_clean.Base.Dict.{Dict, lookup, insert, erase}
use lightspeed_trading_clean.Base.Texts.{show_number}
use lightspeed_trading_clean.Numbers.{DecimalOps}
use lightspeed_trading_clean.Config.{BotConfig, BotStatus}
use lightspeed_trading_clean.Trader.{TraderPosition}
use lightspeed_trading_clean.Monitor.{ClientProxy}
use lightspeed_trading_clean.Bot.{Bot}

-- `GetBotHash`.
unfoldable pub get_bot_hash : String → ℕ → String
get_bot_hash user_id bot_id = str_append user_id (str_append "_" (show_number bot_id))

-- `Monitor`, with its trader's fields; without its channels and mutexes.
pub record Monitor (F D : Type 0) : Type 0 where
  pub uid : String
  pub name : String
  pub positions : List (TraderPosition F)
  pub http_clients : List ClientProxy
  pub proxies : List String
  pub bots : Dict String (Bot D)
  pub webhooks : Dict String String

-- A row of the table users; its key is the user's id. Times are nanoseconds.
pub record User (D : Type 0) : Type 0 where
  pub plan : String
  pub renewal_ts : ℤ
  pub alert_webhook : String
  pub remaining_cpyt_bal : D

-- The state that start-up shares: the handler's monitors, the proxies that are free, and the tables.
pub record Fleet (F D : Type 0) : Type 0 where
  pub running_mons : Dict String (Monitor F D)
  pub available : List String
  pub configs : List (BotConfig D)
  pub users : Dict String (User D)
  pub max_ct_balance : Dict String D

-- The queries that can fail.
pub data Query : Type 0 where
  read_cpyt read_all_cpyt read_users read_plan reduce add_back write_remaining : Query
  set_activity : BotStatus → Query

abbrev pub prox_per_copy : ℕ
prox_per_copy = 5

abbrev pub prox_per_sign : ℕ
prox_per_sign = 1

module _ {F D : Type 0} where
  -- `addBot`: the monitor and its new number of bots.
  unfoldable pub add_bot : Bot D → Monitor F D → Monitor F D × ℕ
  add_bot bot mon =
      let bots =
        insert (get_bot_hash bot.user_id bot.bot_id) (record bot { trader = mon.name }) mon.bots in
      (record mon { bots = bots }, length bots)

  -- `removeBotByHash`: the monitor and the number of bots remaining.
  unfoldable pub remove_bot_by_hash : String → Monitor F D → Monitor F D × ℕ
  remove_bot_by_hash hash mon =
      let bots = erase hash mon.bots in (record mon { bots = bots }, length bots)

  -- `getBot` and `webhookCount`.
  unfoldable pub get_bot : String → Monitor F D → Option (Bot D)
  get_bot hash mon = lookup hash mon.bots

  unfoldable pub webhook_count : Monitor F D → ℕ
  webhook_count mon = length mon.webhooks

  -- `addMonitor`, `removeMonitor` and `getMonitor`.
  unfoldable pub add_monitor : Monitor F D → Fleet F D → Fleet F D
  add_monitor mon fleet = record fleet { running_mons = insert mon.uid mon fleet.running_mons }

  unfoldable pub remove_monitor : String → Fleet F D → Fleet F D
  remove_monitor uid fleet = record fleet { running_mons = erase uid fleet.running_mons }

  unfoldable pub get_monitor : String → Fleet F D → Option (Monitor F D)
  get_monitor uid fleet = lookup uid fleet.running_mons

module _ {D : Type 0} where
  -- The row of a bot: WHERE user_id = $1 AND bot_id = $2.
  abbrev pub is_row : String → ℕ → BotConfig D → Bool
  is_row user_id bot_id c = c.user_id == user_id && c.bot_id == bot_id

  -- `ReadRecordCPYT`; `none` is "no rows in result set".
  unfoldable pub read_record_cpyt : String → ℕ → List (BotConfig D) → Option (BotConfig D)
  read_record_cpyt user_id bot_id [] = none
  read_record_cpyt user_id bot_id (c ∷ cs) =
      if is_row user_id bot_id c then some c else read_record_cpyt user_id bot_id cs

  -- The UPDATE of `SetBotActivity`.
  unfoldable pub write_status : String → ℕ → BotStatus → List (BotConfig D) → List (BotConfig D)
  write_status user_id bot_id status [] = []
  write_status user_id bot_id status (c ∷ cs) =
      (if is_row user_id bot_id c then record c { bot_status = status } else c)
      ∷ write_status user_id bot_id status cs

module _ {F D : Type 0} where
  -- `SetBotActivity`; its callers only log an error.
  unfoldable pub set_bot_activity : (Query → Bool) → String → ℕ → BotStatus → Fleet F D → Fleet F D
  set_bot_activity fails user_id bot_id status fleet =
      if fails (set_activity status)
      then fleet
      else record fleet { configs = write_status user_id bot_id status fleet.configs }

-- The answer of `CheckAndReduceCpytBalance`: done, too low with what remains, or an error.
pub data Reduced (F D : Type 0) : Type 0 where
  reduced : Fleet F D → Reduced F D
  too_low : D → Reduced F D
  reduce_failed : Reduced F D

module _ {F D : Type 0} ⦃dec : DecimalOps D⦄ where
  -- `CheckAndReduceCpytBalance`: the row is reduced if remaining_cpyt_bal >= $1.
  unfoldable pub check_and_reduce_cpyt_balance :
      (Query → Bool) → String → D → Fleet F D → Reduced F D
  check_and_reduce_cpyt_balance fails user_id bal fleet =
      if fails reduce then reduce_failed else (elim (lookup user_id fleet.users) [
        | none ↦ reduce_failed
        | some u ↦
            (if dec.ltb u.remaining_cpyt_bal bal
              then too_low u.remaining_cpyt_bal
              else reduced (record fleet {
                users =
                    insert user_id
                      (record u { remaining_cpyt_bal = dec.sub u.remaining_cpyt_bal bal })
                      fleet.users;
              }))
      ])

  -- `AddBackToCpytBal`: `none` is its error, and ErrNoUser where the user has no row.
  unfoldable pub add_back_to_cpyt_bal : (Query → Bool) → String → D → Fleet F D → Option (Fleet F D)
  add_back_to_cpyt_bal fails user_id bal fleet =
      if fails add_back then none else (elim (lookup user_id fleet.users) [
        | none ↦ none
        | some u ↦ some (record fleet {
          users =
              insert user_id (record u { remaining_cpyt_bal = dec.add u.remaining_cpyt_bal bal })
                fleet.users;
        })
      ])

  -- A caller that only logs its error.
  abbrev pub give_back : (Query → Bool) → String → D → Fleet F D → Fleet F D
  give_back fails user_id bal fleet = elim (add_back_to_cpyt_bal fails user_id bal fleet) [
    | none ↦ fleet
    | some f ↦ f
  ]
