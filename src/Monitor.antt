-- ===== src/Monitor.antt =====
-- monitor.go and classes/clientProxy.go: the loop that reads a trader through the monitor's
-- proxies, one after the other, and hands the updates on. Times are milliseconds; what a request
-- takes and returns, and the messages on the channels, are the environment's.
pub mod Following
pub mod Pace
pub mod Clients
mod Tests
use text.Mathlib.Text.{starts_with}
use lightspeed_trading_clean.Base.{
  ℕ, suc, ◌+◌, String, Bool, true, false, Option, none, some, List, [], ◌∷◌, ◌++◌, length, take,
  drop, ltb, leb, if◌then◌else◌,
}
use lightspeed_trading_clean.Numbers.{FloatOps, Conversions}
use lightspeed_trading_clean.Update.{Update}
use lightspeed_trading_clean.Trader.{TraderPosition, get_updates}

-- `ClientProxy`, without its http client.
pub record ClientProxy : Type 0 where
  pub proxy : String
  pub earliest_use : ℕ
  pub rate_limit : ℕ

-- `SleepUntilReady`: the time at which the caller wakes.
unfoldable pub sleep_until_ready : ClientProxy → ℕ → ℕ
sleep_until_ready c now = if ltb now c.earliest_use then c.earliest_use else now

-- `ResetUseTime`.
unfoldable pub reset_use_time : ClientProxy → ℕ → ClientProxy
reset_use_time c now = record c { earliest_use = now + c.rate_limit }

-- What a request for the trader's positions comes back with.
pub data Reading (F : Type 0) : Type 0 where
  read : List (TraderPosition F) → Reading F
  failed : String → Reading F

-- A request's duration and its result.
pub record Answer (F : Type 0) : Type 0 where
  pub latency : ℕ
  pub reading : Reading F

-- The loop's variables: `mon.trader.positions` and the time.
pub record Watch (F : Type 0) : Type 0 where
  pub positions : List (TraderPosition F)
  pub clock : ℕ

pub record Turn (F D : Type 0) : Type 0 where
  pub client : ClientProxy
  pub watch : Watch F
  pub sent : List (Update F D)

pub record Round (F D : Type 0) : Type 0 where
  pub clients : List ClientProxy
  pub watch : Watch F
  pub sent : List (Update F D)

module _ {F D : Type 0} ⦃fl : FloatOps F⦄ ⦃conv : Conversions F D⦄ where
  -- After a failure the client is rate limited unless the proxy is to blame; after a success it is,
  -- the new positions replace the old, and the updates, if any, are sent.
  unfoldable pub after_request : ClientProxy → Watch F → ℕ → Reading F → Turn F D
  after_request c w done (failed err) = record {
    client = if starts_with err "proxy" then c else reset_use_time c done;
    watch = record w { clock = done };
    sent = [];
  }
  after_request c w done (read news) = elim (get_updates {D = D} w.positions (some news)) [
    | none ↦ record { client = c; watch = record w { clock = done }; sent = [] }
    | some (us, new_positions) ↦ record {
      client = reset_use_time c done;
      watch = record { positions = new_positions; clock = done };
      sent = us;
    }
  ]

  -- One pass of the inner loop.
  unfoldable pub turn : ClientProxy → Watch F → Answer F → Turn F D
  turn c w a = after_request c w (sleep_until_ready c w.clock + a.latency) a.reading

  -- The loop over `mon.httpClients`, from the client of index `i` on.
  unfoldable pub round : (ℕ → Answer F) → ℕ → List ClientProxy → Watch F → Round F D
  round answers i [] w = record { clients = []; watch = w; sent = [] }
  round answers i (c ∷ cs) w =
      let t = turn c w (answers i) in
      let r = round answers (suc i) cs t.watch in
      record { clients = t.client ∷ r.clients; watch = r.watch; sent = t.sent ++ r.sent }

-- What the `select` after a round may receive: clients, a number of clients to return, the end.
pub data Message : Type 0 where
  add_clients : List ClientProxy → Message
  return_clients : ℕ → Message
  end : Bool → Message
  silent : Message

pub data Reply : Type 0 where
  go_on : List ClientProxy → List ClientProxy → Reply
  closed : Reply
  panicked : Reply

-- The `select`: the clients given back and those kept. A number out of range panics.
unfoldable pub receive : Message → List ClientProxy → Reply
receive (add_clients cs) clients = go_on [] (clients ++ cs)
receive (return_clients n) clients =
    if leb n (length clients) then go_on (take n clients) (drop n clients) else panicked
receive (end true) clients = closed
receive (end false) clients = go_on [] clients
receive silent clients = go_on [] clients

pub record Run (F D : Type 0) : Type 0 where
  pub clients : List ClientProxy
  pub returned : List ClientProxy
  pub watch : Watch F
  pub sent : List (Update F D)
  pub live : Bool

module _ {F D : Type 0} ⦃fl : FloatOps F⦄ ⦃conv : Conversions F D⦄ where
  -- `run`, over the answers and the message of each round to come.
  unfoldable pub run : List ((ℕ → Answer F) × Message) → List ClientProxy → Watch F → Run F D
  run [] cs w = record { clients = cs; returned = []; watch = w; sent = []; live = true }
  run ((answers, msg) ∷ rest) cs w =
      let r = round answers 0 cs w in
      elim (receive msg r.clients) [
        | closed ↦ record {
          clients = r.clients;
          returned = [];
          watch = r.watch;
          sent = r.sent;
          live = false;
        }
        | panicked ↦ record {
          clients = r.clients;
          returned = [];
          watch = r.watch;
          sent = r.sent;
          live = false;
        }
        | go_on back kept ↦
            let later = run rest kept r.watch in
            record later { returned = back ++ later.returned; sent = r.sent ++ later.sent }
      ]
