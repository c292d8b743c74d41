-- ===== src/Trades/Watching.antt =====
-- pnlFinder.go: `Bot.PnlWatching`, the symbols whose pnl is being got, and the goroutines of a bot that share
-- it: each is a call of getPnl, and they take turns in any order.
use lightspeed_trading_clean.Base.{
  ℕ, ◌⊎◌, String, Bool, true, false, none, some, List, [], ◌∷◌, ◌++◌, ◌==◌, string_eq, ◌||◌,
  get_elem?, set,
}
use lightspeed_trading_clean.Numbers.{FloatOps, DecimalOps, Conversions}
use lightspeed_trading_clean.Trades.Pnl.{ClosedPnl, get_pnl}

-- Where a call of getPnl stands: in the loop of _pnlWaitUntilAvailable, past it, past the write to the list,
-- returned.
pub data Stage (F D : Type 0) : Type 0 where
  waits : Stage F D
  passes : Stage F D
  asks : Stage F D
  returned : String ⊎ ClosedPnl F D → Stage F D

pub record Call (F D : Type 0) : Type 0 where
  pub symbol : String
  pub qty : D
  pub stage : Stage F D

-- The list of the bot, and the calls of getPnl that were made.
pub record PnlWatch (F D : Type 0) : Type 0 where
  pub pnl_watching : List String
  pub calls : List (Call F D)

-- The inner loop of `_pnlWaitUntilAvailable`: the symbol is in the list.
unfoldable pub exists : String → List String → Bool
exists symbol [] = false
exists symbol (sym ∷ syms) = sym == symbol || exists symbol syms

module _ {F D : Type 0} ⦃fl : FloatOps F⦄ ⦃dec : DecimalOps D⦄ ⦃conv : Conversions F D⦄ where
  -- A call runs until it next looks at the list or changes it: one round of `_pnlWaitUntilAvailable`, the
  -- append, the loop over the attempts, of which a call shares nothing.
  unfoldable pub take_turn :
      (ℕ → String ⊎ List (ClosedPnl F D))
      → Stage F D
      → Call F D
      → List String
      → List String × Call F D
  unfolding exists
  take_turn answers waits call watching = elim (exists call.symbol watching) [
    | true ↦ (watching, call)
    | false ↦ (watching, record call { stage = passes })
  ]
  take_turn answers passes call watching =
      (watching ++ call.symbol ∷ [], record call { stage = asks })
  take_turn answers asks call watching =
      (watching, record call { stage = returned (get_pnl answers call.qty) })
  take_turn answers (returned r) call watching = (watching, call)

  -- The turn of the n-th call.
  unfoldable pub run_call : (ℕ → String ⊎ List (ClosedPnl F D)) → ℕ → PnlWatch F D → PnlWatch F D
  unfolding take_turn
  run_call answers n s = elim (get_elem? s.calls n) [
    | none ↦ s
    | some call ↦
        let (watching, call') = take_turn answers call.stage call s.pnl_watching in
        record { pnl_watching = watching; calls = set s.calls n call' }
  ]

-- A goroutine calls getPnl.
unfoldable pub call_get_pnl : {F D : Type 0} → String → D → PnlWatch F D → PnlWatch F D
call_get_pnl symbol qty s = record s {
  calls = s.calls ++ record { symbol = symbol; qty = qty; stage = waits } ∷ [];
}

module _ {F D : Type 0} ⦃fl : FloatOps F⦄ ⦃dec : DecimalOps D⦄ ⦃conv : Conversions F D⦄ where
  pub data Turn (s : PnlWatch F D) : PnlWatch F D → Type 0 where
    calls_it : (symbol : String) (qty : D) → Turn s (call_get_pnl symbol qty s)
    runs : (answers : ℕ → String ⊎ List (ClosedPnl F D)) (n : ℕ) → Turn s (run_call answers n s)

  pub data Turns (s : PnlWatch F D) : PnlWatch F D → Type 0 where
    done : Turns s s
    more : {t u : PnlWatch F D} → Turns s t → Turn t u → Turns s u

-- A bot as startBot makes it: its list is empty.
abbrev pub quiet : {F D : Type 0} → PnlWatch F D
quiet = record { pnl_watching = []; calls = [] }
