-- ===== src/Monitor/Tests.antt =====
-- A monitor with two proxies: a reading, a failure, then a third proxy.
use lightspeed_trading_clean.Base.{ℕ, ◌+◌, ◌≤◌, ◌≡◌, refl, String, List, [], ◌∷◌, string_eq}
use lightspeed_trading_clean.Base.Int.{ℤ, pos}
use lightspeed_trading_clean.Numbers.{
  FloatOps, Conversions, int_floats, int_conversions, int_floats_laws,
}
use lightspeed_trading_clean.Update.{get_side}
use lightspeed_trading_clean.Trader.{TraderPosition, new_position, get_updates}
use lightspeed_trading_clean.Trader.Keys.{find}
use lightspeed_trading_clean.Trader.Replay.{replay, holdings}
use lightspeed_trading_clean.Monitor.{
  ClientProxy, read, failed, Answer, Watch, Message, add_clients, return_clients, receive,
  sleep_until_ready, after_request, turn, round, run,
}
use lightspeed_trading_clean.Monitor.Following.{replay-run}
use lightspeed_trading_clean.Monitor.Pace.{turn-spacing}
use lightspeed_trading_clean.Monitor.Clients.{count_proxy, added, run-count}

instance abbrev floats : FloatOps ℤ
floats = int_floats

instance abbrev conversions : Conversions ℤ ℤ
conversions = int_conversions

abbrev client : String → ClientProxy
client p = record { proxy = p; earliest_use = 100; rate_limit = 1000 }

abbrev held : String → ℤ → TraderPosition ℤ
held coin qty = new_position qty (pos 10) coin (pos 7) (pos 0) (pos 9)

abbrev start : Watch ℤ
start = record { positions = held "BTC" (pos 2) ∷ []; clock = 0 }

abbrev answers : ℕ → Answer ℤ
answers i = record { latency = 40; reading = read (held "ETH" (pos 5) ∷ []) }

abbrev lost_answers : ℕ → Answer ℤ
lost_answers i = record { latency = 40; reading = failed "proxy refused" }

abbrev rounds : List ((ℕ → Answer ℤ) × Message)
rounds = (answers, add_clients (client "c" ∷ [])) ∷ (lost_answers, return_clients 1) ∷ []

abbrev clients : List ClientProxy
clients = client "a" ∷ client "b" ∷ []

replay-run_example :
    replay (run {D = ℤ} rounds clients start).sent (holdings start.positions) ("ETH", "Buy")
    ≡ holdings (run {D = ℤ} rounds clients start).watch.positions ("ETH", "Buy")
unfolding new_position get_side find
replay-run_example =
    replay-run ℤ int_floats_laws ("ETH", "Buy") rounds clients start (refl, tt)
      ((λ i. (refl, tt)), ((λ i. tt), tt))

turn-spacing_example :
    (100 ≤ sleep_until_ready (client "a") 0)
    × (0 ≤ sleep_until_ready (client "a") 0)
    × ((turn {D = ℤ} (client "a") start (answers 0)).watch.clock
        ≡ sleep_until_ready (client "a") 0 + 40)
    × ((turn {D = ℤ} (client "a") start (answers 0)).watch.clock + 1000
        ≤ sleep_until_ready (turn {D = ℤ} (client "a") start (answers 0)).client 150)
turn-spacing_example = turn-spacing ℤ (client "a") start (answers 0) 150 refl

run-count_example :
    count_proxy "c" (run {D = ℤ} rounds clients start).returned
      + count_proxy "c" (run {D = ℤ} rounds clients start).clients
    ≡ count_proxy "c" clients + count_proxy "c" (added rounds)
unfolding run round turn after_request receive get_updates
run-count_example = run-count ℤ "c" rounds clients start refl
