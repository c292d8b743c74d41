-- ===== src/Monitor/Clients.antt =====
-- The proxies that the loop has, is sent and gives back.
use lightspeed_trading_clean.Base.{
  ℕ, suc, ◌+◌, ◌≡◌, refl, String, Bool, true, false, List, [], ◌∷◌, ◌++◌, arith, ◌==◌, string_eq,
  if◌then◌else◌, take, drop, take-append-drop, inl, inr, ap,
}
use lightspeed_trading_clean.Numbers.{FloatOps, Conversions}
use lightspeed_trading_clean.Monitor.{
  ClientProxy, Reading, read, failed, Answer, Watch, Message, add_clients, return_clients, end,
  silent, go_on, receive, reset_use_time, after_request, turn, round, run,
}
use lightspeed_trading_clean.Monitor.Following.{Reply-cases}
use lightspeed_trading_clean.Trader.{get_updates}

-- How many of the clients go through a proxy.
abbrev pub count_proxy : String → List ClientProxy → ℕ
count_proxy p [] = 0
count_proxy p (c ∷ cs) = (if c.proxy == p then 1 else 0) + count_proxy p cs

pub count_proxy-append :
    (p : String) (cs ds : List ClientProxy)
    → count_proxy p (cs ++ ds) ≡ count_proxy p cs + count_proxy p ds
count_proxy-append p [] ds = omega arith
count_proxy-append p (c ∷ cs) ds = omega (arith, count_proxy-append p cs ds)

-- The clients that a message adds.
abbrev pub brings : Message → List ClientProxy
brings (add_clients cs) = cs
brings (return_clients n) = []
brings (end b) = []
brings silent = []

module _ {F : Type 0} where
  -- The clients that the messages of some rounds add.
  abbrev pub added : List ((ℕ → Answer F) × Message) → List ClientProxy
  added [] = []
  added ((answers, msg) ∷ rest) = brings msg ++ added rest

receive-count :
    (p : String) (msg : Message) (cs back kept : List ClientProxy)
    → receive msg cs ≡ go_on back kept
    → count_proxy p back + count_proxy p kept ≡ count_proxy p cs + count_proxy p (brings msg)
unfolding receive
receive-count p (add_clients ds) cs back kept e = ground (arith, count_proxy-append p cs ds)
receive-count p (return_clients n) cs back kept e = ground (
  arith,
  count_proxy-append p (take n cs) (drop n cs),
  ap (count_proxy p) (take-append-drop n cs),
)
receive-count p (end true) cs back kept e = cc
receive-count p (end false) cs back kept e = ground arith
receive-count p silent cs back kept e = ground arith

module _ {F : Type 0} (D : Type 0) ⦃fl : FloatOps F⦄ ⦃conv : Conversions F D⦄ where
  request-proxy :
      (c : ClientProxy) (w : Watch F) (done : ℕ) (r : Reading F)
      → (after_request {D = D} c w done r).client.proxy ≡ c.proxy
  unfolding after_request get_updates reset_use_time
  request-proxy c w done (read ps) = refl
  request-proxy c w done (failed err) = ground arith

  turn-proxy :
      (c : ClientProxy) (w : Watch F) (a : Answer F) → (turn {D = D} c w a).client.proxy ≡ c.proxy
  unfolding turn
  turn-proxy c w a = request-proxy c w _ a.reading

  round-count :
      (p : String) (answers : ℕ → Answer F) (i : ℕ) (cs : List ClientProxy) (w : Watch F)
      → count_proxy p (round {D = D} answers i cs w).clients ≡ count_proxy p cs
  unfolding round
  round-count p answers i [] w = refl
  round-count p answers i (c ∷ cs) w =
      let t = turn {D = D} c w (answers i) in
      rw (turn-proxy c w (answers i), round-count p answers (suc i) cs t.watch)

  -- While the monitor lives, each proxy is as often among the clients that it has and has returned
  -- as it was among those that it started with and was sent.
  pub run-count :
      (p : String) (rounds : List ((ℕ → Answer F) × Message)) (cs : List ClientProxy) (w : Watch F)
      → (run {D = D} rounds cs w).live ≡ true
      → (let r = run {D = D} rounds cs w in
          count_proxy p r.returned + count_proxy p r.clients
          ≡ count_proxy p cs + count_proxy p (added rounds))
  unfolding run
  run-count p [] cs w h = omega arith
  run-count p ((answers, msg) ∷ rest) cs w h =
      let r = round {D = D} answers 0 cs w in
      elim (Reply-cases (receive msg r.clients)) [
        | inl e ↦ let no_end : ◌≡◌ {A = Bool} false true = rw (e, run) at h in cc
        | inr (inl e) ↦ let no_end : ◌≡◌ {A = Bool} false true = rw (e, run) at h in cc
        | inr (inr (back, kept, e)) ↦
            rw (e, run)
              (omega (
                arith,
                round-count p answers 0 cs w,
                receive-count p msg r.clients back kept e,
                run-count p rest kept r.watch (rw (e, run) at h),
                count_proxy-append p back (run {D = D} rest kept r.watch).returned,
                count_proxy-append p (brings msg) (added rest),
              ))
      ]
