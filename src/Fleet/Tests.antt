-- ===== src/Fleet/Tests.antt =====
-- A user with one bot for one trader, and ten proxies.
use lightspeed_trading_clean.Base.{
  ◌≡◌, refl, ◌⊎◌, inl, All, ◌+◌, ◌-◌, String, true, false, some, none, List, [], ◌∷◌, map,
  string_eq,
}
use lightspeed_trading_clean.Base.Int.{ℤ, pos, ◌-ℤ◌, ltb_ℤ}
use lightspeed_trading_clean.Base.Dict.{lookup, insert}
use lightspeed_trading_clean.Base.Texts.{
  split_from, trim_char, digits_from, atoi, show_digits, ends_with,
}
use lightspeed_trading_clean.Numbers.{DecimalOps, int-BalanceLaws, int_decimals}
use lightspeed_trading_clean.Config.{BotConfig, new_bot_config}
use lightspeed_trading_clean.Monitor.{ClientProxy, read}
use lightspeed_trading_clean.Trader.Requests.{
  body, got, refused, crashed, AllFailed, attempt, name_loop, get_name, first_reading,
  get_init_positions, no_json, get_name_lem, Answered,
}
use lightspeed_trading_clean.Bot.{Bot, ExchangeClient}
use lightspeed_trading_clean.Bot.Join.{handle_trader_bot_differences, join_positions, ignore_others}
use lightspeed_trading_clean.Caches.Proxies.{next_group, count}
use lightspeed_trading_clean.Fleet.{
  Fleet, Monitor, write_status, read_record_cpyt, set_bot_activity, check_and_reduce_cpyt_balance,
  get_monitor, add_monitor, add_bot, get_bot_hash, get_bot, webhook_count, prox_per_copy,
  prox_per_sign,
}
use lightspeed_trading_clean.Fleet.Clients.{
  format_of, is_port, proxy_url, has_user, load_clients, create_clients, made, fresh_client,
}
use lightspeed_trading_clean.Fleet.Create.{
  World, new_monitor, create_new_monitor, make_bot, new_empty_bot, settle_proxies,
}
use lightspeed_trading_clean.Fleet.Balance.{is_active}
use lightspeed_trading_clean.Fleet.Start.{
  StartBotParam, started, config_refusal, start_bot, start_with, start_checked, take_balance,
  reset_activity, return_balance, find_monitor, launch_or_wait, join_new, join_monitor, is_started,
}
use lightspeed_trading_clean.Fleet.Stop.{stop_bot}
use lightspeed_trading_clean.Fleet.Failed.{Restored, start_bot-Restored}
use lightspeed_trading_clean.Fleet.Stopped.{runs, Stopped, stop_bot-Stopped}
use lightspeed_trading_clean.Fleet.Started.{Sound}
use lightspeed_trading_clean.Fleet.Running.{StartedBot, start_bot-StartedBot}
use lightspeed_trading_clean.Fleet.Cycle.{stop_bot-start_bot}
use lightspeed_trading_clean.Fleet.Proxies.{used_by, create_new_monitor-count}
use lightspeed_trading_clean.Fleet.Launch.{Keys, launch_multiple_bots}
use lightspeed_trading_clean.Fleet.Launched.{Launched, launch_multiple_bots-Launched}

instance abbrev decimals : DecimalOps ℤ
decimals = int_decimals

abbrev clients_of_two : List ClientProxy
clients_of_two = fresh_client 7 "h:1" ∷ fresh_client 7 "h:2" ∷ []

two_made : create_clients (λ url. true) 7 ("h:1" ∷ "h:2" ∷ []) ≡ made clients_of_two
unfolding create_clients format_of load_clients proxy_url has_user split_from trim_char
two_made = refl

four_parts :
    create_clients (λ url. true) 0 ("user:pass:host:80" ∷ [])
    ≡ made (fresh_client 0 "user:pass:host:80" ∷ [])
unfolding create_clients format_of is_port atoi digits_from load_clients proxy_url has_user
    split_from trim_char
four_parts = refl

abbrev exchange : ExchangeClient ℤ
exchange = record {
  set_leverage = λ symbol leverage both. none;
  place_order = λ symbol side qty reduce tp sl. [];
  get_my_position = λ symbol. none;
  get_my_positions = some [];
  get_usdt_balance = some (pos 300);
}

abbrev world : World ℤ ℤ
world = record {
  fails = λ q. false;
  exc = exchange;
  balance_err = "";
  url_is_ok = λ url. true;
  now = 0;
  names = λ i c. body "name";
  readings = λ c. read [];
  in_handler = false;
}

abbrev config : BotConfig ℤ
unfolding new_bot_config
config = record (new_bot_config "u" 1) {
  exchange = "bybit";
  binance_id = "t";
  notify_dest = "d";
  api_key_raw = 1 ∷ [];
  api_secret_raw = 1 ∷ [];
}

abbrev proxies : List String
proxies = "h:1" ∷ "h:2" ∷ "h:3" ∷ "h:4" ∷ "h:5" ∷ "h:6" ∷ "h:7" ∷ "h:8" ∷ "h:9" ∷ "h:10" ∷ []

abbrev fleet : Fleet ℤ ℤ
fleet = record {
  running_mons = [];
  available = proxies;
  configs = config ∷ [];
  users =
      (
        "u",
        record {
          plan = "p";
          renewal_ts = pos 0;
          alert_webhook = "";
          remaining_cpyt_bal = pos 1000;
        },
      )
      ∷ [];
  max_ct_balance = ("p", pos 1000) ∷ [];
}

abbrev request : StartBotParam
request = record { user_id = "u"; bot_id = 1; exchange = "bybit"; trader_uid = "t" }

starts : (start_bot false world request fleet).ending ≡ started 1 false
unfolding start_bot start_with start_checked take_balance reset_activity return_balance find_monitor
    launch_or_wait join_new join_monitor config_refusal is_active make_bot new_empty_bot
    create_new_monitor new_monitor settle_proxies next_group create_clients format_of load_clients
    proxy_url has_user split_from trim_char get_name name_loop attempt get_init_positions
    first_reading handle_trader_bot_differences join_positions ignore_others add_bot add_monitor
    get_bot_hash show_digits insert lookup read_record_cpyt write_status set_bot_activity
    check_and_reduce_cpyt_balance get_monitor ltb_ℤ ◌-ℤ◌ config
starts = refl

sound : Sound "t" fleet
unfolding get_monitor lookup
sound = tt

start_bot-StartedBot_example :
    StartedBot world request 1 fleet (start_bot false world request fleet).fleet "u"
start_bot-StartedBot_example = start_bot-StartedBot world request fleet 1 false "u" sound starts

stop_bot-start_bot_example :
    (after : Fleet ℤ ℤ) × (stop_bot
        (λ q. false)
        "u"
        1
        "t"
        (start_bot false world request fleet).fleet
      ≡ some after)
    × (lookup "u" after.users ≡ lookup "u" fleet.users)
    × (runs "t" (get_bot_hash "u" 1) after ≡ false)
stop_bot-start_bot_example =
    stop_bot-start_bot int-BalanceLaws world request fleet 1 false "u" sound refl refl starts

-- A trader whose positions cannot be asked for: the bot is made, the monitor is not.
abbrev offline : World ℤ ℤ
offline = record world { names = λ i c. no_json }

fails_to_start : is_started (start_bot false offline request fleet).ending ≡ false
unfolding start_bot read_record_cpyt config make_bot check_and_reduce_cpyt_balance lookup
    set_bot_activity get_monitor create_new_monitor next_group new_monitor create_clients split_from
    proxy_url has_user get_name ends_with
fails_to_start = refl

start_bot-Restored_example :
    ((start_bot false offline request fleet).fleet ≡ fleet)
    ⊎ Restored request fleet (start_bot false offline request fleet).fleet "u"
start_bot-Restored_example =
    start_bot-Restored int-BalanceLaws offline request fleet "u" refl refl fails_to_start

abbrev client : ClientProxy
client = fresh_client 0 "h:0"

abbrev bot : Bot ℤ
bot = record {
  user_id = "u";
  bot_id = 1;
  exchange = "bybit";
  positions = [];
  open_delay_until = 0;
  cur_balance = pos 300;
  ignore_list = [];
  pnl_watching = [];
  trader = "name";
  initial_balance = pos 300;
}

abbrev monitor : Monitor ℤ ℤ
monitor = record {
  uid = "t";
  name = "name";
  positions = [];
  http_clients = client ∷ [];
  proxies = "h:0" ∷ [];
  bots = ("u_1", bot) ∷ [];
  webhooks = [];
}

abbrev running : Fleet ℤ ℤ
running = record fleet { running_mons = ("t", monitor) ∷ [] }

stop_bot-Stopped_example :
    (after : Fleet ℤ ℤ) × (stop_bot (λ q. false) "u" 1 "t" running ≡ some after)
    × Stopped "u" 1 "t" (pos 300) running after "u"
unfolding get_monitor get_bot lookup webhook_count get_bot_hash show_digits
stop_bot-Stopped_example =
    stop_bot-Stopped (λ q. false) "u" 1 "t" monitor bot running "u" refl refl refl refl refl
      (inl refl)

abbrev four : List String
four = "h:1" ∷ "h:2" ∷ "h:3" ∷ "h:4" ∷ []

abbrev rest_of : List String
rest_of = "h:5" ∷ "h:6" ∷ "h:7" ∷ "h:8" ∷ "h:9" ∷ "h:10" ∷ []

next_four : next_group proxies (prox_per_copy - prox_per_sign) ≡ some (four, rest_of)
unfolding next_group
next_four = refl

four_made : create_clients (λ url. true) 0 four ≡ made (map (fresh_client 0) four)
unfolding create_clients format_of load_clients proxy_url has_user split_from trim_char
four_made = refl

abbrev signals : Monitor ℤ ℤ
signals = record monitor { webhooks = ("v", "url") ∷ [] }

create_new_monitor-count_example :
    ((create_new_monitor world "t" proxies).0 ≡ crashed)
    ⊎ (count "h:2" (create_new_monitor world "t" proxies).1
          + used_by "h:2" (create_new_monitor world "t" proxies).0
        ≡ count "h:2" proxies)
create_new_monitor-count_example = create_new_monitor-count world "t" proxies "h:2"

abbrev keys : Keys ℤ
keys = record { exc = λ c. exchange; balance_err = λ c. ""; decrypts = λ k. true }

abbrev launched_monitor : Monitor ℤ ℤ
launched_monitor = record monitor { bots = ("u_1", bot) ∷ [] }

all_launched :
    launch_multiple_bots keys 0 (config ∷ []) (record monitor { bots = [] }) ≡ some launched_monitor
unfolding launch_multiple_bots make_bot handle_trader_bot_differences insert get_bot_hash
    new_empty_bot config show_digits
all_launched = refl

launch_multiple_bots-Launched_example :
    All (Launched keys 0 (record monitor { bots = [] }) launched_monitor.bots) (config ∷ [])
    × (launched_monitor ≡ record monitor { bots = launched_monitor.bots })
launch_multiple_bots-Launched_example =
    launch_multiple_bots-Launched keys 0 (config ∷ []) (record monitor { bots = [] })
      launched_monitor all_launched

get_name_lem_example :
    ((name : String) × (get_name (λ i c. body "name") (client ∷ []) ≡ got name)
      × Answered (λ i c. body "name") (client ∷ []) 5 1 name)
    ⊎ ((err : String) × (get_name (λ i c. body "name") (client ∷ []) ≡ refused err)
        × AllFailed (λ i c. body "name") (client ∷ []) 5 1)
get_name_lem_example = get_name_lem (λ i c. body "name") client []
