-- ===== src/Bot/Manual.antt =====
-- Bot.checkManualChanges: the positions are compared with those that the exchange reports.
pub mod Positions
use lightspeed_trading_clean.Base.{
  String, ◌≡◌, refl, inl, inr, is_some, Bool-cases, ap, Bool, true, false, none, some, List, [],
  ◌∷◌, ◌++◌, ◌==◌, string_eq, arith, if◌then◌else◌, ==_iff, ◌||◌,
}
use lightspeed_trading_clean.Base.Dict.{Dict, lookup, erase, lookup-erase}
use lightspeed_trading_clean.Numbers.{DecimalOps}
use lightspeed_trading_clean.Bot.{Bot, BotPosition}
use lightspeed_trading_clean.Bot.Ignore.{contains, is_ignored, ignore, is_ignored-ignore}

-- What the request for the positions comes to; `keys_invalid` is an error that ends in "10003, API key
-- is invalid.".
pub data Answer (D : Type 0) : Type 0 where
  answered : Dict String (BotPosition D) → Answer D
  keys_invalid request_failed cancelled : Answer D

-- What checkManualChanges does to the outside: the bot leaves its monitor, the user is told, the bot
-- becomes inactive, the balance is read again, and onUnexpectedSell starts for a position.
pub data Effect (D : Type 0) : Type 0 where
  remove_from_monitor crash_alert deactivate set_balance : Effect D
  unexpected_sell : BotPosition D → Effect D

module _ {D : Type 0} ⦃dec : DecimalOps D⦄ where
  -- A position takes the limits of the exchange, and its quantity and entry if the quantity differs.
  abbrev pub refreshed : BotPosition D → BotPosition D → BotPosition D
  refreshed p api =
      let q = if dec.same p.qty api.qty then p else record p { qty = api.qty; entry = api.entry } in
      record q { tp = api.tp; sl = api.sl }

  -- The loop over the positions: the ones that are still there are refreshed in place.
  unfoldable pub refresh :
      Dict String (BotPosition D) → Dict String (BotPosition D) → Dict String (BotPosition D)
  refresh api [] = []
  refresh api ((k, p) ∷ d) =
      (k, (elim (lookup k api) [ none ↦ p | some a ↦ refreshed p a ])) ∷ refresh api d

module _ {D : Type 0} where
  -- The others are to be deleted.
  unfoldable pub to_delete : Dict String (BotPosition D) → Dict String (BotPosition D) → List String
  to_delete api [] = []
  to_delete api ((k, p) ∷ d) = elim (lookup k api) [
    | none ↦ k ∷ to_delete api d
    | some a ↦ to_delete api d
  ]

  unfoldable pub sold :
      Dict String (BotPosition D) → Dict String (BotPosition D) → List (BotPosition D)
  sold api [] = []
  sold api ((k, p) ∷ d) = elim (lookup k api) [ none ↦ p ∷ sold api d | some a ↦ sold api d ]

  unfoldable pub delete_all :
      List String → Dict String (BotPosition D) → Dict String (BotPosition D)
  delete_all [] d = d
  delete_all (k ∷ ks) d = delete_all ks (erase k d)

  abbrev pub sells : List (BotPosition D) → List (Effect D)
  sells [] = []
  sells (p ∷ ps) = unexpected_sell p ∷ sells ps

  -- `onUnexpectedSell`, for each position sold: its symbol is ignored from now on.
  unfoldable pub run_sells : List (Effect D) → Bot D → Bot D
  run_sells [] bot = bot
  run_sells (unexpected_sell p ∷ es) bot = run_sells es (ignore bot p.symbol)
  run_sells (_ ∷ es) bot = run_sells es bot

module _ {D : Type 0} ⦃dec : DecimalOps D⦄ where
  -- `checkManualChanges`. `busy` is a failed TryLock.
  unfoldable pub check_manual_changes : Bot D → Bool → Answer D → Bot D × List (Effect D)
  unfolding refresh to_delete sold delete_all
  check_manual_changes bot true answer = (bot, [])
  check_manual_changes bot false cancelled = (bot, [])
  check_manual_changes bot false request_failed = (bot, [])
  check_manual_changes bot false keys_invalid =
      (bot, remove_from_monitor ∷ crash_alert ∷ deactivate ∷ [])
  check_manual_changes bot false (answered api) =
      let gone = sold api bot.positions in
      (
        record bot {
          positions = delete_all (to_delete api bot.positions) (refresh api bot.positions);
        },
        sells gone ++ (elim gone [ [] ↦ [] | p ∷ ps ↦ set_balance ∷ [] ]),
      )
