-- ===== src/Fleet/Cycle.antt =====
-- startBot, and stopBot after it.
use lightspeed_trading_clean.Base.{
  ℕ, String, ◌≡◌, Bool, false, some, string_eq, number_eq, arith, ==_iff, ==_refl,
}
use lightspeed_trading_clean.Base.Dict.{lookup}
use lightspeed_trading_clean.Numbers.{DecimalOps, BalanceLaws}
use lightspeed_trading_clean.Config.{inactive}
use lightspeed_trading_clean.Fleet.{Fleet, add_back, set_activity, get_bot_hash}
use lightspeed_trading_clean.Fleet.Create.{World}
use lightspeed_trading_clean.Fleet.Start.{StartBotParam, started, start_bot}
use lightspeed_trading_clean.Fleet.Stop.{stop_bot}
use lightspeed_trading_clean.Fleet.Stopped.{runs, stop_bot-Stopped}
use lightspeed_trading_clean.Fleet.Started.{Sound}
use lightspeed_trading_clean.Fleet.Running.{start_bot-StartedBot}

module _ {F D : Type 0} ⦃dec : DecimalOps D⦄ where
  -- A bot that startBot started can be stopped: then every user's row is as it was before the start, and the bot
  -- does not run; this holds where a monitor of the trader that ran already has the trader's uid and can give
  -- its proxies back, and where the writes of the status inactive and of the balance succeed.
  pub stop_bot-start_bot :
      (laws : BalanceLaws dec) (w : World F D) (req : StartBotParam) (fleet : Fleet F D) (n : ℕ)
      (e : Bool) (j : String)
      → Sound req.trader_uid fleet
      → w.fails add_back ≡ false
      → w.fails (set_activity inactive) ≡ false
      → (start_bot false w req fleet).ending ≡ started n e
      → (after : Fleet F D) × (stop_bot w.fails req.user_id req.bot_id req.trader_uid
            (start_bot false w req fleet).fleet
          ≡ some after)
        × (lookup j after.users ≡ lookup j fleet.users)
        × (runs req.trader_uid (get_bot_hash req.user_id req.bot_id) after ≡ false)
  stop_bot-start_bot laws w req fleet n e j sound back inact h =
      let (bal, balance, (mon, bot, at, uid, can, has, saved, number), (u, had, enough, users)) =
        start_bot-StartedBot w req fleet n e j sound h in
      let (bal', balance', runs', (u', had', enough', own)) =
        start_bot-StartedBot w req fleet n e req.user_id sound h in
      let (after, done, (paid, stopped, rows)) =
        stop_bot-Stopped w.fails req.user_id req.bot_id req.trader_uid mon bot
          (start_bot false w req fleet).fleet j back inact at uid has can in
      (
        after,
        done,
        ground (
          arith,
          paid,
          users,
          own,
          had,
          had',
          balance,
          balance',
          saved,
          laws.add-sub u.remaining_cpyt_bal bal,
          ==_iff req.user_id j,
          ==_refl req.user_id,
        ),
        stopped,
      )
