-- ===== src/Fleet/Create.antt =====
-- monitor.go (newMonitor, createNewMonitor) and botStartup.go (newEmptyBot, makeBot, setBalance): the
-- making of a monitor and of a bot. What surrounds them (the database, the exchange, the
-- requests, the clock) is a record.
use Prim.Native.String.{◌++◌ as str_append}
use lightspeed_trading_clean.Base.{
  ℕ, ◌⊎◌, inl, inr, String, Bool, true, false, none, some, List, [], ◌||◌, if◌then◌else◌, ltb,
  length,
}
use lightspeed_trading_clean.Base.Int.{negsuc}
use lightspeed_trading_clean.Base.Texts.{ends_with}
use lightspeed_trading_clean.Numbers.{DecimalOps}
use lightspeed_trading_clean.Monitor.{ClientProxy, Reading}
use lightspeed_trading_clean.Trader.Requests.{
  NameAnswer, Asked, got, refused, crashed, get_name, get_init_positions,
}
use lightspeed_trading_clean.Bot.{Bot, ExchangeClient}
use lightspeed_trading_clean.Caches.Proxies.{next_group, return_group}
use lightspeed_trading_clean.Fleet.{Monitor, Query, prox_per_copy}
use lightspeed_trading_clean.Fleet.Clients.{made, bad_proxies, out_of_range, create_clients}

-- What surrounds a start: the queries that fail, the exchange with the text of its balance error,
-- the URLs that parse, the time, what the requests for the trader answer, and what Wait returns.
pub record World (F D : Type 0) : Type 0 where
  pub fails : Query → Bool
  pub exc : ExchangeClient D
  pub balance_err : String
  pub url_is_ok : String → Bool
  pub now : ℕ
  pub names : ℕ → ClientProxy → NameAnswer
  pub readings : ClientProxy → Reading F
  pub in_handler : Bool

module _ {F D : Type 0} where
  -- `newMonitor`.
  unfoldable pub new_monitor : World F D → String → List String → Asked (Monitor F D)
  new_monitor w uid proxy_strs = elim (create_clients w.url_is_ok w.now proxy_strs) [
    | bad_proxies ↦
        refused (str_append uid " : failed to create clients, err: error parsing proxies")
    | out_of_range ↦ crashed
    | made clients ↦ (elim (get_name w.names clients) [
      | refused err ↦ refused err
      | crashed ↦ crashed
      | got name ↦ (elim (get_init_positions name w.readings clients) [
        | refused err ↦ refused err
        | crashed ↦ crashed
        | got positions ↦ got (record {
          uid = uid;
          name = name;
          positions = positions;
          http_clients = clients;
          proxies = proxy_strs;
          bots = [];
          webhooks = [];
        })
      ])
    ])
  ]

  -- The monitor that newMonitor made or not, and the proxies that are then free.
  unfoldable pub settle_proxies :
      List String → List String → Asked (Monitor F D) → Asked (Monitor F D) × List String
  settle_proxies group rest (got mon) = (got mon, rest)
  settle_proxies group rest (refused err) = (refused err, return_group rest group)
  settle_proxies group rest crashed = (crashed, rest)

  -- `createNewMonitor`.
  unfoldable pub create_new_monitor :
      World F D → String → List String → Asked (Monitor F D) × List String
  unfolding settle_proxies
  create_new_monitor w uid available =
      if ltb (length available) prox_per_copy
      then (refused "not enough proxies", available)
      else (elim (next_group available prox_per_copy) [
        | none ↦ (new_monitor w uid [], available)
        | some (group, rest) ↦ settle_proxies group rest (new_monitor w uid group)
      ])

module _ {D : Type 0} ⦃dec : DecimalOps D⦄ where
  -- `newEmptyBot`.
  unfoldable pub new_empty_bot : ℕ → String → ℕ → String → Bot D
  new_empty_bot now user_id bot_id exchange = record {
    user_id = user_id;
    bot_id = bot_id;
    exchange = exchange;
    positions = [];
    open_delay_until = now;
    cur_balance = dec.from_int (negsuc 0);
    ignore_list = [];
    pnl_watching = [];
    trader = "";
    initial_balance = dec.from_int (negsuc 0);
  }

  -- `makeBot` with setBalance; the error is "invalid api keys", or "internal server error" if true.
  unfoldable pub make_bot : ExchangeClient D → String → ℕ → String → ℕ → String → Bot D ⊎ Bool
  make_bot exc balance_err now user_id bot_id exchange = elim exc.get_usdt_balance [
    | none ↦ inr (
        if ends_with balance_err "10003, API key is invalid."
          || ends_with balance_err "please set api key and secret"
        then false
        else true)
    | some bal ↦ inl (record (new_empty_bot now user_id bot_id exchange) {
      cur_balance = bal;
      initial_balance = bal;
    })
  ]
