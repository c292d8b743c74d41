-- ===== src/Trades/Found.antt =====
-- getPnl of pnlFinder.go: what it finds, against the list of all that the exchange answers.
use Prim.Native.String.{◌++◌ as str_append}
use lightspeed_trading_clean.Base.{
  ℕ, zero, suc, ◌⊎◌, inl, inr, String, Option, none, some, List, [], ◌++◌,
}
use lightspeed_trading_clean.Trades.Pnl.{ClosedPnl}

module _ {F D : Type 0} where
  -- The pnls that one answer brings, none for an error.
  abbrev pub pnls_of : String ⊎ List (ClosedPnl F D) → List (ClosedPnl F D)
  pnls_of (inl err) = []
  pnls_of (inr pnls) = pnls

  -- The pnls that some answers bring, from the i-th on.
  abbrev pub gather : (ℕ → String ⊎ List (ClosedPnl F D)) → ℕ → ℕ → List (ClosedPnl F D)
  gather answers zero i = []
  gather answers (suc left) i = pnls_of (answers i) ++ gather answers left (suc i)

  -- The error after a last answer.
  abbrev pub reason : String ⊎ List (ClosedPnl F D) → String
  reason (inl err) = str_append "failed to get pnl, " err
  reason (inr pnls) = "failed to get pnl, timeout"

  abbrev pub found : Option (ClosedPnl F D) → String → String ⊎ ClosedPnl F D
  found none err = inl err
  found (some pnl) err = inr pnl

  abbrev or_else : Option (ClosedPnl F D) → Option (ClosedPnl F D) → Option (ClosedPnl F D)
  or_else none o = o
  or_else (some pnl) o = some pnl
