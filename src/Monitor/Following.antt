-- ===== src/Monitor/Following.antt =====
-- What the loop of monitor.go has sent, against what it has read.
use lightspeed_trading_clean.Base.{ℕ, suc, ◌⊎◌, inl, inr, ◌≡◌, refl, ◌∙◌, List, [], ◌∷◌, ◌++◌}
use lightspeed_trading_clean.Numbers.{FloatOps, FloatLaws, Conversions}
use lightspeed_trading_clean.Update.{Update}
use lightspeed_trading_clean.Trader.{TraderPosition, get_updates, compare_positions}
use lightspeed_trading_clean.Trader.Keys.{Key, Distinct}
use lightspeed_trading_clean.Trader.Replay.{
  Holdings, holdings, replay, replay-append, replay_agrees, replay-compare_positions,
}
use lightspeed_trading_clean.Monitor.{
  ClientProxy, Reading, read, failed, Answer, Watch, Message, Reply, go_on, closed, panicked,
  receive, after_request, turn, round, run,
}

module _ {F : Type 0} where
  -- A reading that fails, or has no two positions under one key.
  abbrev pub IsClean : Reading F → Type 0
  IsClean (read ps) = Distinct ps
  IsClean (failed err) = Unit {0}

  abbrev pub AllClean : List ((ℕ → Answer F) × Message) → Type 0
  AllClean [] = Unit {0}
  AllClean ((answers, msg) ∷ rest) = ((i : ℕ) → IsClean (answers i).reading) × AllClean rest

pub Reply-cases :
    (r : Reply)
    → (r ≡ closed)
      ⊎ ((r ≡ panicked)
          ⊎ ((back : List ClientProxy) × (kept : List ClientProxy) × (r ≡ go_on back kept)))
Reply-cases closed = inl refl
Reply-cases panicked = inr (inl refl)
Reply-cases (go_on back kept) = inr (inr (back, kept, refl))

module _ {F : Type 0} (D : Type 0) ⦃fl : FloatOps F⦄ ⦃conv : Conversions F D⦄
    (law : FloatLaws fl) where
  -- Replaying `sent` leads from the holdings of `ps` to those of `qs`, whose keys are distinct.
  abbrev Leads : List (TraderPosition F) → List (Update F D) → List (TraderPosition F) → Type 0
  Leads ps sent qs =
      Distinct qs
      × ((k : Key) (h : Holdings F) → h k ≡ holdings ps k → replay sent h k ≡ holdings qs k)

  request-Leads :
      (c : ClientProxy) (w : Watch F) (done : ℕ) (r : Reading F)
      → Distinct w.positions
      → IsClean r
      → (let t = after_request {D = D} c w done r in Leads w.positions t.sent t.watch.positions)
  unfolding after_request get_updates
  request-Leads c w done (failed err) d clean = (d, λ k h e. e)
  request-Leads c w done (read ps) d clean = (
    clean,
    λ k h e.
        replay_agrees k (compare_positions w.positions ps) h (holdings w.positions) e
        ∙ replay-compare_positions D law k w.positions ps d clean,
  )

  turn-Leads :
      (c : ClientProxy) (w : Watch F) (a : Answer F)
      → Distinct w.positions
      → IsClean a.reading
      → (let t = turn {D = D} c w a in Leads w.positions t.sent t.watch.positions)
  unfolding turn
  turn-Leads c w a d clean = request-Leads c w _ a.reading d clean

  Leads-append :
      (ps qs rs : List (TraderPosition F)) (us vs : List (Update F D))
      → Leads ps us qs
      → Leads qs vs rs
      → Leads ps (us ++ vs) rs
  Leads-append ps qs rs us vs a b =
      (b.0, λ k h e. rw (replay-append us vs h) (b.1 k (replay us h) (a.1 k h e)))

  round-Leads :
      (answers : ℕ → Answer F) (i : ℕ) (cs : List ClientProxy) (w : Watch F)
      → Distinct w.positions
      → ((j : ℕ) → IsClean (answers j).reading)
      → (let r = round {D = D} answers i cs w in Leads w.positions r.sent r.watch.positions)
  unfolding round
  round-Leads answers i [] w d clean = (d, λ k h e. e)
  round-Leads answers i (c ∷ cs) w d clean =
      let t = turn {D = D} c w (answers i) in
      let first = turn-Leads c w (answers i) d (clean i) in
      Leads-append w.positions t.watch.positions _ t.sent _ first
        (round-Leads answers (suc i) cs t.watch first.0 clean)

  run-Leads :
      (rounds : List ((ℕ → Answer F) × Message)) (cs : List ClientProxy) (w : Watch F)
      → Distinct w.positions
      → AllClean rounds
      → (let r = run {D = D} rounds cs w in Leads w.positions r.sent r.watch.positions)
  unfolding run
  run-Leads [] cs w d clean = (d, λ k h e. e)
  run-Leads ((answers, msg) ∷ rest) cs w d clean =
      let r = round {D = D} answers 0 cs w in
      let first = round-Leads answers 0 cs w d clean.0 in
      elim (Reply-cases (receive msg r.clients)) [
        | inl e ↦ rw (e, run) first
        | inr (inl e) ↦ rw (e, run) first
        | inr (inr (back, kept, e)) ↦
            rw (e, run)
              (Leads-append w.positions r.watch.positions _ r.sent _ first
                (run-Leads rest kept r.watch first.0 clean.1))
      ]

  -- Where no reading has a key twice, and floats that compare equal have one absolute value: however the
  -- rounds go, with failed requests, clients added and returned, replaying all that was sent over the
  -- holdings at the start gives the holdings of the monitor's positions at the end.
  pub replay-run :
      (k : Key) (rounds : List ((ℕ → Answer F) × Message)) (cs : List ClientProxy) (w : Watch F)
      → Distinct w.positions
      → AllClean rounds
      → (let r = run {D = D} rounds cs w in
          replay r.sent (holdings w.positions) k ≡ holdings r.watch.positions k)
  replay-run k rounds cs w d clean = (run-Leads rounds cs w d clean).1 k (holdings w.positions) refl
