-- ===== src/Dispatch.antt =====
-- botManagement.go: an update of a trader is dispatched to the bots that follow the trader. The bots'
-- goroutines share nothing, so each bot is a function of its own.
pub mod Cycle
pub mod Prices
pub mod Send
pub mod Alone
mod Tests
use lightspeed_trading_clean.Base.{
  ℕ, zero, suc, ◌+◌, String, Bool, true, false, Option, none, some, List, [], ◌∷◌, ◌++◌,
  if◌then◌else◌, not, ◌&&◌, map,
}
use lightspeed_trading_clean.Numbers.{FloatOps, Conversions, DecimalOps}
use lightspeed_trading_clean.Update.{Update}
use lightspeed_trading_clean.Config.{BotConfig}
use lightspeed_trading_clean.Bot.{
  Bot, Symbol, OpenUpdate, ChangeUpdate, ExchangeClient, BotError, is_no_trade, Event, Ending,
  returned, panicked, Outcome,
}
use lightspeed_trading_clean.Bot.Ignore.{ignore}
use lightspeed_trading_clean.Bot.Open.{open_position}
use lightspeed_trading_clean.Bot.Close.{close_position}
use lightspeed_trading_clean.Bot.Change.{change_position}

-- What surrounds a bot when an update reaches it: its settings if they can be read, the exchange, and the
-- readings of the clock.
pub record Around (D : Type 0) : Type 0 where
  pub config : Option (BotConfig D)
  pub data_ : Symbol D
  pub exc : ExchangeClient D
  pub now : ℕ
  pub after : ℕ

-- An error of a DispatchResult: one that the operation returned, or a panic.
pub data DispatchError : Type 0 where
  returned_error : BotError → DispatchError
  panic_error : DispatchError

abbrev pub dispatch_errors : List (Option BotError) → List (Option DispatchError)
dispatch_errors [] = []
dispatch_errors (none ∷ es) = none ∷ dispatch_errors es
dispatch_errors (some e ∷ es) = some (returned_error e) ∷ dispatch_errors es

-- A bot after an update, what it did, and the errors of its DispatchResult.
pub record Dispatched (D : Type 0) : Type 0 where
  pub bot : Bot D
  pub events : List (Event D)
  pub errs : List (Option DispatchError)

-- The first result is an error and no decision not to trade.
abbrev pub is_failure : List (Option BotError) → Bool
is_failure [] = false
is_failure (none ∷ es) = false
is_failure (some e ∷ es) = not (is_no_trade e)

module _ {D : Type 0} where
  -- The goroutine of openPositions after openPosition: a bot that did not open ignores the symbol.
  unfoldable pub after_open : String → Outcome D → Dispatched D
  after_open symbol out = elim out.ending [
    | panicked ↦ record { bot = out.bot; events = out.events; errs = some panic_error ∷ [] }
    | returned opened errs ↦ record {
      bot = if opened then out.bot else ignore out.bot symbol;
      events = out.events;
      errs = dispatch_errors errs;
    }
  ]

  -- The goroutine of closePositions after closePosition: a bot that failed to close ignores the symbol.
  unfoldable pub after_close_dispatch : String → Outcome D → Dispatched D
  after_close_dispatch symbol out = elim out.ending [
    | panicked ↦ record { bot = out.bot; events = out.events; errs = some panic_error ∷ [] }
    | returned closed errs ↦ record {
      bot = if not closed && is_failure errs then ignore out.bot symbol else out.bot;
      events = out.events;
      errs = dispatch_errors errs;
    }
  ]

  unfoldable pub after_change_dispatch : Outcome D → Dispatched D
  after_change_dispatch out = elim out.ending [
    | panicked ↦ record { bot = out.bot; events = out.events; errs = some panic_error ∷ [] }
    | returned ordered errs ↦ record {
      bot = out.bot;
      events = out.events;
      errs = dispatch_errors errs;
    }
  ]

module _ {F D : Type 0} ⦃fl : FloatOps F⦄ ⦃conv : Conversions F D⦄ ⦃dec : DecimalOps D⦄ where
  unfoldable pub open_for : OpenUpdate F D → Around D → Bot D → Dispatched D
  unfolding after_open
  open_for upd a bot =
      after_open upd.upd.symbol (open_position bot upd a.config a.data_ a.exc a.now a.after)

  unfoldable pub change_for : ChangeUpdate F D → Around D → Bot D → Dispatched D
  unfolding after_change_dispatch
  change_for upd a bot =
      after_change_dispatch (change_position bot upd a.config a.data_ a.exc a.now)

  -- `openPositions`. `upd?` is the update with the prices of the exchanges; without them, every bot
  -- ignores the symbol (onFailedTradePrep).
  unfoldable pub open_positions :
      String → Option (OpenUpdate F D) → List (Around D × Bot D) → List (Dispatched D)
  unfolding open_for
  open_positions symbol upd? [] = []
  open_positions symbol none ((a, bot) ∷ bots) =
      record { bot = ignore bot symbol; events = []; errs = [] } ∷ open_positions symbol none bots
  open_positions symbol (some upd) ((a, bot) ∷ bots) =
      open_for upd a bot ∷ open_positions symbol (some upd) bots

module _ {F D : Type 0} ⦃dec : DecimalOps D⦄ where
  unfoldable pub close_for : Update F D → Around D → Bot D → Dispatched D
  unfolding after_close_dispatch
  close_for upd a bot =
      after_close_dispatch upd.symbol (close_position bot upd false a.config a.exc)

  -- `closePositions`.
  unfoldable pub close_positions : Update F D → List (Around D × Bot D) → List (Dispatched D)
  unfolding close_for
  close_positions upd [] = []
  close_positions upd ((a, bot) ∷ bots) = close_for upd a bot ∷ close_positions upd bots

-- The counters of logAndCollectResults.
pub record Tally : Type 0 where
  pub num_err : ℕ
  pub num_order : ℕ
  pub num_no_trade_decision : ℕ

-- The loop over the errors of one result.
unfoldable pub tally_errs : List (Option DispatchError) → Tally → Tally
tally_errs [] t = t
tally_errs (none ∷ es) t = tally_errs es (record t { num_order = t.num_order + 1 })
tally_errs (some panic_error ∷ es) t = tally_errs es (record t { num_err = t.num_err + 1 })
tally_errs (some (returned_error e) ∷ es) t = tally_errs es (
    if is_no_trade e
    then record t { num_no_trade_decision = t.num_no_trade_decision + 1 }
    else record t { num_err = t.num_err + 1 })

module _ {D : Type 0} where
  -- `logAndCollectResults`, from counters at `t` on.
  unfoldable pub collect_results : List (Dispatched D) → Tally → Tally
  unfolding tally_errs
  collect_results [] t = t
  collect_results (r ∷ rs) t = collect_results rs (tally_errs r.errs t)
