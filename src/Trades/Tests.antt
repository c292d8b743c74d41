-- ===== src/Trades/Tests.antt =====
-- Two calls of getPnl for one symbol, and an exchange that answers the third request.
use lightspeed_trading_clean.Base.{
  ℕ, zero, suc, ◌≡◌, refl, ◌⊎◌, inl, inr, String, some, List, [], ◌∷◌, get_elem?,
}
use lightspeed_trading_clean.Base.Int.{ℤ, pos, negsuc, abs_ℤ, ◌-ℤ◌}
use lightspeed_trading_clean.Numbers.{
  FloatOps, DecimalOps, Conversions, int_floats, int_decimals, int_conversions,
}
use lightspeed_trading_clean.Trades.Pnl.{ClosedPnl, get_pnl, wrap_int64}
use lightspeed_trading_clean.Trades.Watching.{
  waits, asks, Call, PnlWatch, run_call, call_get_pnl, calls_it, runs, Turns, done, more, quiet,
}
use lightspeed_trading_clean.Trades.Starved.{waits-ever}

instance abbrev floats : FloatOps ℤ
floats = int_floats

instance abbrev decimals : DecimalOps ℤ
decimals = int_decimals

instance abbrev conversions : Conversions ℤ ℤ
conversions = int_conversions

abbrev closed : ClosedPnl ℤ ℤ
closed = record { symbol = "BTC"; pnl = pos 7; qty = pos 2; avg_exit_price = pos 5 }

abbrev answers : ℕ → String ⊎ List (ClosedPnl ℤ ℤ)
answers (suc zero) = inl "EOF"
answers (suc (suc (suc zero))) = inr (closed ∷ [])
answers n = inr []

third_request : get_pnl answers (pos 2) ≡ inr closed
unfolding get_pnl abs_ℤ ◌-ℤ◌
third_request = refl

no_request : get_pnl answers (pos 3) ≡ inl "failed to get pnl, timeout"
unfolding get_pnl abs_ℤ ◌-ℤ◌
no_request = refl

int64_wraps : wrap_int64 (pos 9223372036854775808) ≡ negsuc 9223372036854775807
unfolding wrap_int64
int64_wraps = refl

abbrev first : Call ℤ ℤ
first = record { symbol = "BTC"; qty = pos 2; stage = asks }

abbrev second : Call ℤ ℤ
second = record { symbol = "BTC"; qty = pos 3; stage = waits }

abbrev both : PnlWatch ℤ ℤ
both =
    call_get_pnl "BTC" (pos 3)
      (run_call answers 0 (run_call answers 0 (call_get_pnl "BTC" (pos 2) quiet)))

both-Turns : Turns quiet both
both-Turns =
    more (more (more (more done (calls_it "BTC" (pos 2))) (runs answers 0)) (runs answers 0))
      (calls_it "BTC" (pos 3))

both-first : get_elem? both.calls 0 ≡ some first
unfolding run_call call_get_pnl
both-first = refl

both-second : get_elem? both.calls 1 ≡ some second
unfolding run_call call_get_pnl
both-second = refl

waits-ever_example : get_elem? (run_call answers 1 (run_call answers 0 both)).calls 1 ≡ some second
waits-ever_example =
    waits-ever both (run_call answers 1 (run_call answers 0 both)) 0 1 first second both-Turns
      both-first refl both-second refl refl (more (more done (runs answers 0)) (runs answers 1))
