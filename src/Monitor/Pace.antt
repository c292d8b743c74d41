-- ===== src/Monitor/Pace.antt =====
-- How often a proxy is used.
use text.Mathlib.Text.{starts_with}
use lightspeed_trading_clean.Base.{ℕ, ◌+◌, ◌≤◌, ◌≡◌, Bool, true, false, arith}
use lightspeed_trading_clean.Numbers.{FloatOps, Conversions}
use lightspeed_trading_clean.Monitor.{
  ClientProxy, Reading, read, failed, Answer, Watch, sleep_until_ready, reset_use_time,
  after_request, turn,
}
use lightspeed_trading_clean.Trader.{get_updates}

module _ {F : Type 0} where
  -- The request reached Binance: it did not fail on the proxy.
  abbrev pub reached : Reading F → Bool
  reached (read ps) = true
  reached (failed err) = elim (starts_with err "proxy") [ true ↦ false | false ↦ true ]

wakes :
    (c : ClientProxy) (now : ℕ)
    → (c.earliest_use ≤ sleep_until_ready c now) × (now ≤ sleep_until_ready c now)
unfolding sleep_until_ready
wakes c now = ground arith

module _ {F : Type 0} (D : Type 0) ⦃fl : FloatOps F⦄ ⦃conv : Conversions F D⦄ where
  request-spacing :
      (c : ClientProxy) (w : Watch F) (done : ℕ) (r : Reading F) (later : ℕ)
      → reached r ≡ true
      → let t = after_request {D = D} c w done r in
        (t.watch.clock ≡ done) × (done + c.rate_limit ≤ sleep_until_ready t.client later)
  unfolding after_request get_updates reset_use_time sleep_until_ready
  request-spacing c w done (read ps) later h = ground arith
  request-spacing c w done (failed err) later h = ground arith

  -- A request starts no earlier than its client allows and the clock says. If it reached Binance,
  -- then whenever the loop comes back to the client, the next request starts at least the client's
  -- rate limit after this one came back.
  pub turn-spacing :
      (c : ClientProxy) (w : Watch F) (a : Answer F) (later : ℕ)
      → reached a.reading ≡ true
      → let t = turn {D = D} c w a in
        let start = sleep_until_ready c w.clock in
        (c.earliest_use ≤ start)
        × (w.clock ≤ start)
        × (t.watch.clock ≡ start + a.latency)
        × (t.watch.clock + c.rate_limit ≤ sleep_until_ready t.client later)
  unfolding turn
  turn-spacing c w a later h =
      let start = sleep_until_ready c w.clock in
      let r = request-spacing c w (start + a.latency) a.reading later h in
      ((wakes c w.clock).0, (wakes c w.clock).1, r.0, rw r.0 r.1)
